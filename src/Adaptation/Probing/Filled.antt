-- ===== src/Adaptation/Probing/Filled.antt =====
-- The table that `buildHashTable` fills has every cell in reach of its hash.
use native.Mathlib.Nat.{mod-le, mod-lt}
use fluidloom.Prelude.{
  ℕ, zero, suc, ◌+◌, ◌*◌, ◌%◌, ◌^◌, ◌≤◌, ◌<◌, ◌≡◌, refl, ap, ◌∙◌, subst, inl, inr, arith, List, [],
  ◌∷◌, some, Option-cases, Bool, true, false, Bool-cases, length, get_elem?, set, replicate, ◌==◌,
  get_or-set, length-set, length-replicate, ok,
}
use fluidloom.Adaptation.Cell.{CellDescriptor, get_hilbert, invalid_index}
use fluidloom.Adaptation.Probing.{
  table_size_for, slot_at, find_slot, first_hash, insert_cell, fill, HashState, keep_table,
  ensure_table, build_hash_table,
}
use fluidloom.Adaptation.Probing.Walk.{
  walk, walk-lt, Occupied, Free, Stops, used, used-set, find_slot-Stops,
}
use fluidloom.Adaptation.Probing.Sizes.{table_size_for_lem}

-- Probing from `hash` meets `v` before any free slot.
pub record Found (size : ℕ) (table : List ℕ) (hash v : ℕ) : Type 0 where
  pub steps : ℕ
  pub within : steps < size
  pub holds : slot_at table (walk size hash steps) ≡ v
  pub before : (d : ℕ) → d < steps → Occupied table (walk size hash d)

-- A write to a free slot leaves the slots in use alone.
set_elsewhere :
    (table : List ℕ) (slot s w : ℕ)
    → slot < length table
    → Free table slot
    → Occupied table s
    → slot_at (set table slot w) s ≡ slot_at table s
set_elsewhere table slot s w lt free taken =
    let apart : (slot == s) ≡ false = elim (Bool-cases (slot == s)) [
      | inl same ↦
          let e : slot ≡ s = ground (arith, same) in absurd (ground (arith, taken, rw e at free))
      | inr differ ↦ differ
    ] in
    get_or-set table slot s w invalid_index lt ∙ rw apart refl

Found-set :
    (size : ℕ) (table : List ℕ) (slot w hash v : ℕ)
    → slot < length table
    → Free table slot
    → (v == invalid_index) ≡ false
    → Found size table hash v
    → Found size (set table slot w) hash v
Found-set size table slot w hash v lt free hv f =
    let taken : Occupied table (walk size hash f.steps) = rw f.holds hv in
    record {
      steps = f.steps;
      within = f.within;
      holds = set_elsewhere table slot (walk size hash f.steps) w lt free taken ∙ f.holds;
      before = λ d h.
          rw (set_elsewhere table slot (walk size hash d) w lt free (f.before d h)) (f.before d h);
    }

-- The table while it is filled: `n` slots of `size` are in use.
pub record Holding (size : ℕ) (table : List ℕ) (n : ℕ) : Type 0 where
  pub sized : length table ≡ size
  pub counted : used table ≡ n

-- What an insertion does to the table.
record Inserted (size i hash : ℕ) (table table' : List ℕ) : Type 0 where
  holding : Holding size table' (suc i)
  found : Found size table' hash i
  kept :
      (other v : ℕ)
      → (v == invalid_index) ≡ false
      → Found size table other v
      → Found size table' other v

first_hash-lt : (size : ℕ) (c : CellDescriptor) → 0 < size → first_hash size c < size
first_hash-lt size c h =
    omega (arith, mod-le (get_hilbert c % size) (2 ^ 32), mod-lt (get_hilbert c) h)

set-Inserted :
    (size i hash slot : ℕ) (table : List ℕ)
    → hash < size
    → i < invalid_index
    → Holding size table i
    → Stops size table hash slot
    → Inserted size i hash table (set table slot i)
set-Inserted size i hash slot table lt small h s =
    let inside : slot < length table =
      omega (arith, s.reaches, walk-lt size hash s.steps lt, h.sized) in
    let valid : (i == invalid_index) ≡ false = ground arith in
    let here : (slot == slot) ≡ true = ground arith in
    record {
      holding = record {
        sized = length-set table slot i ∙ h.sized;
        counted = used-set table slot i inside s.free valid ∙ ap suc h.counted;
      };
      found = record {
        steps = s.steps;
        within = s.within;
        holds = rw s.reaches (get_or-set table slot slot i invalid_index inside ∙ rw here refl);
        before = λ d lt'.
            rw (set_elsewhere table slot (walk size hash d) i inside s.free (s.before d lt'))
              (s.before d lt');
      };
      kept = λ other v hv f. Found-set size table slot i other v inside s.free hv f;
    }

insert_cell-Inserted :
    (size i : ℕ) (c : CellDescriptor) (table : List ℕ)
    → size ≤ 2 ^ 32
    → i < size
    → i < invalid_index
    → Holding size table i
    → Inserted size i (first_hash size c) table (insert_cell size i c table)
unfolding insert_cell
insert_cell-Inserted size i c table fits room small h =
    let hash = first_hash size c in
    let lt = first_hash-lt size c (omega arith) in
    let slot = find_slot size table size hash in
    let s : Stops size table hash slot =
      find_slot-Stops size table hash h.sized fits lt (omega (arith, h.counted)) in
    let word : i % 2 ^ 32 ≡ i = omega arith in
    rw (s.free, word) (set-Inserted size i hash slot table lt small h s)

-- What filling the table from the cell `i` on does.
record Filled (size : ℕ) (cs : List CellDescriptor) (i : ℕ) (table table' : List ℕ) : Type 0 where
  holding : Holding size table' (i + length cs)
  found :
      (k : ℕ) (c : CellDescriptor)
      → get_elem? cs k ≡ some c
      → Found size table' (first_hash size c) (i + k)
  kept :
      (other v : ℕ)
      → (v == invalid_index) ≡ false
      → Found size table other v
      → Found size table' other v

valid_index : (i : ℕ) → i < invalid_index → (i == invalid_index) ≡ false
valid_index i h = ground arith

found_cons :
    (size i : ℕ) (c : CellDescriptor) (cs : List CellDescriptor) (table : List ℕ)
    → Found size table (first_hash size c) i
    → ((k : ℕ) (c' : CellDescriptor)
        → get_elem? cs k ≡ some c'
        → Found size table (first_hash size c') (suc i + k))
    → (k : ℕ) (c' : CellDescriptor) → get_elem? (c ∷ cs) k ≡ some c'
    → Found size table (first_hash size c') (i + k)
found_cons size i c cs table first later zero c' e =
    let same : c ≡ c' = cc in
    let sum : i + 0 ≡ i = omega arith in
    rw sum (subst (λ (d : CellDescriptor). Found size table (first_hash size d) i) same first)
found_cons size i c cs table first later (suc k) c' e =
    let sum : i + suc k ≡ suc i + k = omega arith in rw sum (later k c' e)

fill-Filled :
    (size : ℕ) (cs : List CellDescriptor) (i : ℕ) (table : List ℕ)
    → size ≤ 2 ^ 32
    → i + length cs ≤ size
    → i + length cs < invalid_index
    → Holding size table i
    → Filled size cs i table (fill size cs i table)
unfolding fill
fill-Filled size [] i table fits room small h =
    let sum : i + 0 ≡ i = omega arith in
    record { holding = rw sum h; found = λ k c e. absurd (cc); kept = λ other v hv f. f }
fill-Filled size (c ∷ cs) i table fits room small h =
    let first = insert_cell-Inserted size i c table fits (omega arith) (omega arith) h in
    let rest =
      fill-Filled size cs (suc i) (insert_cell size i c table) fits (omega arith) (omega arith)
        first.holding in
    record {
      holding =
          let sum : i + suc (length cs) ≡ suc i + length cs = omega arith in rw sum rest.holding;
      found =
          found_cons size i c cs (fill size cs (suc i) (insert_cell size i c table))
            (rest.kept (first_hash size c) i (valid_index i (omega arith)) first.found) rest.found;
      kept = λ other v hv f. rest.kept other v hv (first.kept other v hv f);
    }

used_none : (size : ℕ) → used (replicate size invalid_index) ≡ 0
unfolding used
used_none zero = refl
used_none (suc size) = omega (arith, used_none size)

empty_table : (size : ℕ) → Holding size (replicate size invalid_index) 0
empty_table size = record { sized = length-replicate size invalid_index; counted = used_none size }

ensure_lem :
    (allocates : ℕ → Bool) (size : ℕ) (s : HashState)
    → ((bytes : ℕ) → allocates bytes ≡ true)
    → (s' : HashState) × (ensure_table allocates size (keep_table size s) ≡ ok s')
      × (s'.hash_table_size ≡ size)
unfolding ensure_table keep_table
ensure_lem allocates size s room = elim (Bool-cases (s.hash_table_size == size)) [
  | inl same ↦ elim (Option-cases s.hash_table) [
    | inl missing ↦ (
      record { hash_table = some (replicate size 0); hash_table_size = size },
      rw same (rw (missing, room (size * 4)) refl),
      refl,
    )
    | inr (table, there) ↦ (s, rw same (rw there refl), ground (arith, same))
  ]
  | inr other ↦ (
    record { hash_table = some (replicate size 0); hash_table_size = size },
    rw other (rw (room (size * 4)) refl),
    refl,
  )
]

-- What `buildHashTable` leaves behind.
pub record Built (cells : List CellDescriptor) (s : HashState) : Type 0 where
  pub table : List ℕ
  pub stored : s.hash_table ≡ some table
  pub roomy : length cells * 2 ≤ s.hash_table_size
  pub counted : used table ≡ length cells
  pub found :
      (k : ℕ) (c : CellDescriptor)
      → get_elem? cells k ≡ some c
      → Found s.hash_table_size table (first_hash s.hash_table_size c) k

-- For less than 2^31 cells, where the buffer of the table can be allocated, `buildHashTable` returns.
-- It leaves a table with at least twice as many slots as there are cells, in which as many slots are
-- in use as there are cells; and probing from the hash of a cell meets the cell's number before any
-- free slot, in less steps than there are slots.
pub build_hash_table-Built :
    (allocates : ℕ → Bool) (cells : List CellDescriptor) (s : HashState)
    → length cells < 2 ^ 31
    → ((size : ℕ) → allocates size ≡ true)
    → (s' : HashState) × (build_hash_table allocates cells s ≡ ok s') × Built cells s'
unfolding build_hash_table
build_hash_table-Built allocates cells s few room =
    let n = length cells in
    let size = table_size_for n in
    let sizes = table_size_for_lem n (omega arith) in
    let table = fill size cells 0 (replicate size invalid_index) in
    let filled =
      fill-Filled size cells 0 (replicate size invalid_index) sizes.1 (omega (arith, sizes.0))
        (omega arith) (empty_table size) in
    let (s1, made, sized) = ensure_lem allocates size s room in
    (
      record s1 { hash_table = some table },
      rw made refl,
      record {
        table = table;
        stored = refl;
        roomy = rw sized (sizes.0);
        counted = filled.holding.counted ∙ omega arith;
        found = λ k c e.
            let from_zero : 0 + k ≡ k = omega arith in
            rw sized (rw from_zero at (filled.found k c e));
      },
    )
