-- ===== src/Adaptation/Probing.antt =====
-- `buildHashTable` of `BalanceEnforcer` and of `MergeEngine` (src/adaptation/BalanceEnforcer.cpp,
-- src/adaptation/MergeEngine.cpp), which are the same code: the host's hash table of the cells.
-- A buffer is the list of its words; `allocates` tells whether `clCreateBuffer` succeeds for a size.
pub mod Walk
pub mod Sizes
pub mod Filled
use fluidloom.Prelude.{
  ℕ, zero, suc, ◌+◌, ◌*◌, ◌%◌, ◌^◌, List, [], ◌∷◌, Option, none, some, Bool, length, get_or, set,
  replicate, ltb, ◌==◌, not, if◌then◌else◌, Result, ok, err, ◌||◌,
}
use fluidloom.Adaptation.Cell.{CellDescriptor, get_hilbert, invalid_index}

pub data EngineError : Type 0 where
  table_not_allocated : EngineError

-- `while (table_size < num_cells * 2) table_size *= 2` on 64-bit words.
unfoldable pub doubled : ℕ → ℕ → ℕ → ℕ
doubled zero size num_cells = size
doubled (suc fuel) size num_cells =
    let rest = doubled fuel (size * 2 % 2 ^ 64) num_cells in
    if ltb size (num_cells * 2 % 2 ^ 64) then rest else size

unfoldable pub table_size_for : ℕ → ℕ
table_size_for num_cells = let size = doubled 64 1 num_cells in if ltb size 1024 then 1024 else size

-- `(hash + 1) % table_size` for a 32-bit `hash`.
abbrev pub next_hash : ℕ → ℕ → ℕ
next_hash size hash = (hash + 1) % 2 ^ 32 % size

abbrev pub slot_at : List ℕ → ℕ → ℕ
slot_at table hash = get_or table hash invalid_index

-- The linear probing with `left` probes to go.
unfoldable pub find_slot : ℕ → List ℕ → ℕ → ℕ → ℕ
find_slot zero table size hash = hash
find_slot (suc left) table size hash =
    let rest = find_slot left table size (next_hash size hash) in
    if slot_at table hash == invalid_index then hash else rest

abbrev pub first_hash : ℕ → CellDescriptor → ℕ
first_hash size c = get_hilbert c % size % 2 ^ 32

-- A full table is only logged.
unfoldable pub insert_cell : ℕ → ℕ → CellDescriptor → List ℕ → List ℕ
insert_cell size i c table =
    let slot = find_slot size table size (first_hash size c) in
    if slot_at table slot == invalid_index then set table slot (i % 2 ^ 32) else table

unfoldable pub fill : ℕ → List CellDescriptor → ℕ → List ℕ → List ℕ
fill size [] i table = table
fill size (c ∷ cs) i table = fill size cs (suc i) (insert_cell size i c table)

pub record HashState : Type 0 where
  pub hash_table : Option (List ℕ)
  pub hash_table_size : ℕ

abbrev pub new_hash_state : HashState
new_hash_state = record { hash_table = none; hash_table_size = 0 }

-- A table of another size is released first.
unfoldable pub keep_table : ℕ → HashState → HashState
keep_table size s = if s.hash_table_size == size then s else record s { hash_table = none }

unfoldable pub ensure_table : (ℕ → Bool) → ℕ → HashState → Result EngineError HashState
ensure_table allocates size s = elim s.hash_table [
  | some table ↦ ok s
  | none ↦
      if allocates (size * 4)
      then ok (record { hash_table = some (replicate size 0); hash_table_size = size })
      else err table_not_allocated
]

abbrev pub write_table : List ℕ → Result EngineError HashState → Result EngineError HashState
write_table table (ok s) = ok (record s { hash_table = some table })
write_table table (err e) = err e

unfoldable pub build_hash_table :
    (ℕ → Bool) → List CellDescriptor → HashState → Result EngineError HashState
build_hash_table allocates cells s =
    let size = table_size_for (length cells) in
    let table = fill size cells 0 (replicate size invalid_index) in
    write_table table (ensure_table allocates size (keep_table size s))
