-- ===== src/Fields/Manager/Sound.antt =====
-- What holds of every field that the manager keeps, whatever calls were made.
use fluidloom.Prelude.{
  ℕ, zero, suc, ◌+◌, ◌*◌, ◌<◌, ◌≡◌, refl, sym, ap, subst, ◌∙◌, inl, inr, arith, length, some, Bool,
  true, Bool-cases, ◌==◌, get_or,
}
use fluidloom.Fields.Descriptor.{FieldDescriptor, bytes_per_cell, descriptor_valid}
use fluidloom.Fields.Manager.{
  Buffer, Backend, FieldState, aligned_cell_size, compute_aligned_size, component_ptrs, set_dirty,
}
use fluidloom.Fields.Manager.ById.{Table, find, store, erase, find-store, find-erase}

pub record WellState (id : ℕ) (s : FieldState) : Type 0 where
  pub owner : s.descriptor.id ≡ id
  pub valid : descriptor_valid s.descriptor ≡ true
  pub ptrs : length s.device_ptrs ≡ s.descriptor.num_components
  pub located :
      (c : ℕ)
      → c < s.descriptor.num_components
      → get_or s.device_ptrs c 0 ≡ s.device_buffer.device_pointer + c * bytes_per_cell s.descriptor
  pub pitch_aligned : s.pitch ≡ aligned_cell_size (bytes_per_cell s.descriptor)
  pub sized : s.device_buffer.size ≡ compute_aligned_size (bytes_per_cell s.descriptor) s.num_cells

abbrev pub WellFormed : Table FieldState → Type 0
WellFormed t = (id : ℕ) (s : FieldState) → find id t ≡ some s → WellState id s

pub length-component_ptrs :
    (base bytes left comp : ℕ) → length (component_ptrs base bytes left comp) ≡ left
unfolding component_ptrs
length-component_ptrs base bytes zero comp = refl
length-component_ptrs base bytes (suc left) comp =
    ap suc (length-component_ptrs base bytes left (suc comp))

pub get_or-component_ptrs :
    (base bytes left comp c : ℕ)
    → c < left
    → get_or (component_ptrs base bytes left comp) c 0 ≡ base + (comp + c) * bytes
unfolding component_ptrs
get_or-component_ptrs base bytes zero comp c lt = absurd (omega arith)
get_or-component_ptrs base bytes (suc left) comp zero lt =
    ap (λ (t : ℕ). base + t * bytes) (omega arith)
get_or-component_ptrs base bytes (suc left) comp (suc c) lt =
    get_or-component_ptrs base bytes left (suc comp) c (omega arith)
    ∙ ap (λ (t : ℕ). base + t * bytes) (omega arith)

state_of_some : {s s' : FieldState} → some s ≡ some s' → s ≡ s'
state_of_some e = cc

pub store-WellFormed :
    (t : Table FieldState) (id : ℕ) (s : FieldState)
    → WellFormed t
    → WellState id s
    → WellFormed (store id s t)
store-WellFormed t id s well new other s' found =
    let stored = sym (find-store id other s t) ∙ found in
    elim (Bool-cases (id == other)) [
      | inl here ↦
          let same : id ≡ other = ground (arith, here) in
          let e : some s ≡ some s' = (rw here at stored) in
          subst (λ (k : ℕ). WellState k s') same (subst (WellState id) (state_of_some e) new)
      | inr away ↦ well other s' (rw away at stored)
    ]

pub erase-WellFormed : (t : Table FieldState) (id : ℕ) → WellFormed t → WellFormed (erase id t)
erase-WellFormed t id well other s found =
    let left = sym (find-erase id other t) ∙ found in
    elim (Bool-cases (id == other)) [
      | inl here ↦ absurd (cc (rw here at left))
      | inr away ↦ well other s (rw away at left)
    ]

pub descriptor_valid-dirty :
    (dirty : Bool) (d : FieldDescriptor) → descriptor_valid (set_dirty dirty d) ≡ descriptor_valid d
unfolding descriptor_valid
descriptor_valid-dirty dirty d = refl

-- The buffers that the backend gives out have the size that was asked for.
abbrev pub Exact : Backend → Type 0
Exact b =
    (bytes : ℕ) (w : b.World) (buffer : Buffer)
    → (b.allocate_buffer bytes w).0 ≡ some buffer
    → buffer.size ≡ bytes
