-- ===== src/Adaptation/Probing/Walk.antt =====
-- The slots that the probing passes: with a free slot in the table it ends at a free one.
use native.Mathlib.Nat.{mod-eq_of_lt, mod-lt, zero-mod, mod_self}
use fluidloom.Prelude.{
  ℕ, zero, suc, ◌+◌, ◌-◌, ◌%◌, ◌^◌, ◌≤◌, ◌<◌, ◌≡◌, refl, ◌∙◌, inl, inr, ◌⊎◌, arith, List, [], ◌∷◌,
  true, false, Bool-cases, length, set, ltb, ◌==◌, if◌then◌else◌,
}
use fluidloom.Adaptation.Cell.{invalid_index}
use fluidloom.Adaptation.Probing.{next_hash, slot_at, find_slot}

-- The slot after `d` steps.
unfoldable pub walk : ℕ → ℕ → ℕ → ℕ
walk size hash zero = hash
walk size hash (suc d) = walk size (next_hash size hash) d

abbrev pub Occupied : List ℕ → ℕ → Type 0
Occupied table slot = (slot_at table slot == invalid_index) ≡ false

abbrev pub Free : List ℕ → ℕ → Type 0
Free table slot = (slot_at table slot == invalid_index) ≡ true

-- The probing stops at the first free slot of the walk.
pub record Stops (size : ℕ) (table : List ℕ) (hash slot : ℕ) : Type 0 where
  pub steps : ℕ
  pub within : steps < size
  pub reaches : walk size hash steps ≡ slot
  pub free : Free table slot
  pub before : (d : ℕ) → d < steps → Occupied table (walk size hash d)

abbrev StopsIn : ℕ → ℕ → List ℕ → ℕ → ℕ → Type 0
StopsIn left size table hash slot =
    (steps : ℕ) × (steps < left)
    × (walk size hash steps ≡ slot)
    × Free table slot
    × ((d : ℕ) → d < steps → Occupied table (walk size hash d))

abbrev AllOccupied : ℕ → ℕ → List ℕ → ℕ → Type 0
AllOccupied left size table hash = (d : ℕ) → d < left → Occupied table (walk size hash d)

up_to : (P : ℕ → Type 0) {n : ℕ} → P 0 → ((e : ℕ) → e < n → P (suc e)) → (d : ℕ) → d < suc n → P d
up_to P first later zero lt = first
up_to P first later (suc e) lt = later e (omega arith)

find_slot-Free :
    (left : ℕ) (table : List ℕ) (size hash : ℕ)
    → Free table hash
    → find_slot (suc left) table size hash ≡ hash
unfolding find_slot
find_slot-Free left table size hash free = rw free refl

find_slot_taken :
    (left : ℕ) (table : List ℕ) (size hash : ℕ)
    → Occupied table hash
    → find_slot (suc left) table size hash ≡ find_slot left table size (next_hash size hash)
unfolding find_slot
find_slot_taken left table size hash taken = rw taken refl

find_slot-cases :
    (left : ℕ) (table : List ℕ) (size hash : ℕ)
    → StopsIn left size table hash (find_slot left table size hash)
      ⊎ AllOccupied left size table hash
unfolding walk
find_slot-cases zero table size hash = inr (λ d lt. absurd (omega arith))
find_slot-cases (suc left) table size hash =
    elim (Bool-cases (slot_at table hash == invalid_index)) [
      | inl free ↦
          rw (find_slot-Free left table size hash free)
            (inl (0, omega arith, refl, free, λ d lt. absurd (omega arith)))
      | inr taken ↦
          let Taken = λ (d : ℕ). Occupied table (walk size hash d) in
          rw (find_slot_taken left table size hash taken)
            (elim (find_slot-cases left table size (next_hash size hash)) [
              | inl (steps, lt, at, free, before) ↦
                  inl (suc steps, omega arith, at, free, up_to Taken taken before)
              | inr all ↦ inr (up_to Taken taken all)
            ])
    ]

-- Below the size of the table, the walk goes round it.
pub next_hash-lt : (size hash : ℕ) → 0 < size → next_hash size hash < size
next_hash-lt size hash h = mod-lt ((hash + 1) % 2 ^ 32) h

next_hash_inside :
    (size hash : ℕ) → size ≤ 2 ^ 32 → suc hash < size → next_hash size hash ≡ suc hash
next_hash_inside size hash fits lt =
    let e : (hash + 1) % 2 ^ 32 ≡ suc hash = omega arith in rw e (mod-eq_of_lt lt)

next_hash_last : (size hash : ℕ) → size ≤ 2 ^ 32 → suc hash ≡ size → next_hash size hash ≡ 0
next_hash_last size hash fits e = elim (Bool-cases (size == 2 ^ 32)) [
  | inl top ↦
      let wrapped : (hash + 1) % 2 ^ 32 ≡ 0 = ground (arith, e, top) in rw wrapped (zero-mod size)
  | inr less ↦
      let same : (hash + 1) % 2 ^ 32 ≡ size = ground (arith, e, less, fits) in
      rw same (mod_self size)
]

pub walk-lt : (size hash d : ℕ) → hash < size → walk size hash d < size
unfolding walk
walk-lt size hash zero h = h
walk-lt size hash (suc d) h =
    walk-lt size (next_hash size hash) d (next_hash-lt size hash (omega arith))

walk_below : (size d hash : ℕ) → size ≤ 2 ^ 32 → hash + d < size → walk size hash d ≡ hash + d
unfolding walk
walk_below size zero hash fits lt = omega arith
walk_below size (suc d) hash fits lt =
    rw (next_hash_inside size hash fits (omega arith))
      (walk_below size d (suc hash) fits (omega arith) ∙ omega arith)

walk-suc : (size hash d : ℕ) → walk size hash (suc d) ≡ walk size (next_hash size hash) d
unfolding walk
walk-suc size hash d = refl

walk_wrap :
    (size d hash j : ℕ)
    → size ≤ 2 ^ 32
    → hash < size
    → hash + d ≡ size
    → walk size hash (d + j) ≡ walk size 0 j
walk_wrap size zero hash j fits lt e = absurd (omega arith)
walk_wrap size (suc zero) hash j fits lt e =
    let one_more : 1 + j ≡ suc j = omega arith in
    rw (one_more, walk-suc size hash j, next_hash_last size hash fits (omega arith)) refl
walk_wrap size (suc (suc d)) hash j fits lt e =
    let one_more : suc (suc d) + j ≡ suc (suc d + j) = omega arith in
    let later = walk_wrap size (suc d) (suc hash) j fits (omega arith) (omega arith) in
    rw (one_more, walk-suc size hash (suc d + j), next_hash_inside size hash fits (omega arith))
      later

walk_round :
    (size hash j : ℕ)
    → size ≤ 2 ^ 32
    → hash < size
    → j < size
    → (d : ℕ) × (d < size) × (walk size hash d ≡ j)
walk_round size hash j fits hh hj = elim (Bool-cases (ltb j hash)) [
  | inl behind ↦
      let lt : j < hash = ground (arith, behind) in
      (
        size - hash + j,
        omega (arith, lt),
        walk_wrap size (size - hash) hash j fits hh (omega arith)
            ∙ walk_below size j 0 fits (omega arith)
            ∙ omega arith,
      )
  | inr ahead ↦
      let le : hash ≤ j = ground (arith, ahead) in
      (
        j - hash,
        omega (arith, le),
        walk_below size (j - hash) hash fits (omega (arith, le)) ∙ omega (arith, le),
      )
]

-- The number of the slots in use.
unfoldable pub used : List ℕ → ℕ
used [] = 0
used (v ∷ vs) = (if v == invalid_index then 0 else 1) + used vs

used_all :
    (table : List ℕ) → ((j : ℕ) → j < length table → Occupied table j) → used table ≡ length table
unfolding used
used_all [] all = refl
used_all (v ∷ vs) all =
    ground (arith, all 0 (omega arith), used_all vs (λ j lt. all (suc j) (omega arith)))

pub used-set :
    (table : List ℕ) (slot v : ℕ)
    → slot < length table
    → Free table slot
    → (v == invalid_index) ≡ false
    → used (set table slot v) ≡ suc (used table)
unfolding used
used-set [] slot v lt free hv = absurd (omega arith)
used-set (x ∷ xs) zero v lt free hv = ground (arith, free, hv)
used-set (x ∷ xs) (suc slot) v lt free hv = omega (arith, used-set xs slot v (omega arith) free hv)

-- With fewer slots in use than there are, the probing stops at a free slot.
pub find_slot-Stops :
    (size : ℕ) (table : List ℕ) (hash : ℕ)
    → length table ≡ size
    → size ≤ 2 ^ 32
    → hash < size
    → used table < size
    → Stops size table hash (find_slot size table size hash)
find_slot-Stops size table hash len fits hh room = elim (find_slot-cases size table size hash) [
  | inl (steps, lt, at, free, before) ↦ record {
    steps = steps;
    within = lt;
    reaches = at;
    free = free;
    before = before;
  }
  | inr all ↦ absurd (
      omega (
        arith,
        used_all table (λ j lt.
            let (d, dlt, at) = walk_round size hash j fits hh (omega (arith, len)) in
            rw at at (all d dlt)),
      ))
]
