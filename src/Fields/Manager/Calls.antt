-- ===== src/Fields/Manager/Calls.antt =====
-- Every call on the manager keeps its fields well-formed.
use fluidloom.Prelude.{
  ℕ, ◌≡◌, refl, ◌∙◌, inl, inr, arith, List, [], ◌∷◌, Option, none, some, Option-cases, Bool, true,
  false, Bool-cases, ◌==◌,
}
use fluidloom.Fields.Descriptor.{FieldDescriptor, bytes_per_cell, descriptor_valid}
use fluidloom.Fields.Manager.{
  Buffer, Backend, FieldState, compute_aligned_size, set_dirty, next_version, Manager, new_state,
  finish_allocate, allocate, resized, finish_resize, resize, deallocate, mark_dirty, mark_clean,
}
use fluidloom.Fields.Manager.ById.{find}
use fluidloom.Fields.Manager.Sound.{
  WellState, WellFormed, Exact, length-component_ptrs, get_or-component_ptrs, store-WellFormed,
  erase-WellFormed, descriptor_valid-dirty,
}

module _ (b : Backend) (exact : Exact b) where
  pub data Call : Type 0 where
    allocated : FieldDescriptor → ℕ → Call
    resized_to : ℕ → ℕ → Call
    freed dirtied cleaned : ℕ → Call

  unfoldable pub apply : Call → Manager b → Manager b
  apply (allocated desc num_cells) m = (allocate b desc num_cells m).1
  apply (resized_to id num_cells) m = (resize b id num_cells m).1
  apply (freed id) m = deallocate b id m
  apply (dirtied id) m = (mark_dirty b id m).1
  apply (cleaned id) m = (mark_clean b id m).1

  new_state-WellState :
      (desc : FieldDescriptor) (num_cells : ℕ) (buffer : Buffer)
      → descriptor_valid desc ≡ true
      → buffer.size ≡ compute_aligned_size (bytes_per_cell desc) num_cells
      → WellState desc.id (new_state b desc num_cells buffer)
  new_state-WellState desc num_cells buffer valid size = record {
    owner = refl;
    valid = valid;
    ptrs = length-component_ptrs buffer.device_pointer (bytes_per_cell desc) desc.num_components 0;
    located = λ c lt.
        get_or-component_ptrs buffer.device_pointer (bytes_per_cell desc) desc.num_components 0 c lt
        ∙ omega arith;
    pitch_aligned = refl;
    sized = size;
  }

  resized-WellState :
      (id num_cells : ℕ) (s : FieldState) (buffer : Buffer)
      → WellState id s
      → buffer.size ≡ compute_aligned_size (bytes_per_cell s.descriptor) num_cells
      → WellState id (resized b num_cells s buffer)
  resized-WellState id num_cells s buffer well size = record {
    owner = well.owner;
    valid = descriptor_valid-dirty true s.descriptor ∙ well.valid;
    ptrs =
        length-component_ptrs buffer.device_pointer (bytes_per_cell s.descriptor)
          s.descriptor.num_components 0;
    located = λ c lt.
        get_or-component_ptrs buffer.device_pointer (bytes_per_cell s.descriptor)
          s.descriptor.num_components 0 c lt
        ∙ omega arith;
    pitch_aligned = well.pitch_aligned;
    sized = size;
  }

  marked-WellState :
      (id version : ℕ) (dirty : Bool) (s : FieldState)
      → WellState id s
      → WellState id (record s { version = version; descriptor = set_dirty dirty s.descriptor })
  marked-WellState id version dirty s well = record {
    owner = well.owner;
    valid = descriptor_valid-dirty dirty s.descriptor ∙ well.valid;
    ptrs = well.ptrs;
    located = well.located;
    pitch_aligned = well.pitch_aligned;
    sized = well.sized;
  }

  finish_allocate-WellFormed :
      (desc : FieldDescriptor) (num_cells : ℕ) (m : Manager b) (r : Option Buffer × b.World)
      → descriptor_valid desc ≡ true
      → WellFormed m.fields
      → ((buffer : Buffer)
          → r.0 ≡ some buffer
          → buffer.size ≡ compute_aligned_size (bytes_per_cell desc) num_cells)
      → WellFormed (finish_allocate b desc num_cells m r).1.fields
  finish_allocate-WellFormed desc num_cells m (none, w) valid well size = well
  finish_allocate-WellFormed desc num_cells m (some buffer, w) valid well size =
      store-WellFormed m.fields desc.id (new_state b desc num_cells buffer) well
        (new_state-WellState desc num_cells buffer valid (size buffer refl))

  allocate-WellFormed :
      (desc : FieldDescriptor) (num_cells : ℕ) (m : Manager b)
      → WellFormed m.fields
      → WellFormed (allocate b desc num_cells m).1.fields
  unfolding allocate
  allocate-WellFormed desc num_cells m well =
      let bytes = compute_aligned_size (bytes_per_cell desc) num_cells in
      elim (Bool-cases (descriptor_valid desc)) [
        | inr invalid ↦ simp (invalid, allocate) well
        | inl valid ↦ elim (Option-cases (find desc.id m.fields)) [
          | inr (s, e) ↦ simp (valid, e, allocate) well
          | inl e ↦
              simp (valid, e, allocate)
                (finish_allocate-WellFormed desc num_cells m (b.allocate_buffer bytes m.world) valid
                  well (λ buffer given. exact bytes m.world buffer given))
        ]
      ]

  finish_resize-WellFormed :
      (id num_cells : ℕ) (s : FieldState) (m : Manager b) (r : Option Buffer × b.World)
      → WellState id s
      → WellFormed m.fields
      → ((buffer : Buffer)
          → r.0 ≡ some buffer
          → buffer.size ≡ compute_aligned_size (bytes_per_cell s.descriptor) num_cells)
      → WellFormed (finish_resize b id num_cells s m r).1.fields
  finish_resize-WellFormed id num_cells s m (none, w) state well size = well
  finish_resize-WellFormed id num_cells s m (some buffer, w) state well size =
      store-WellFormed m.fields id (resized b num_cells s buffer) well
        (resized-WellState id num_cells s buffer state (size buffer refl))

  resize-WellFormed :
      (id num_cells : ℕ) (m : Manager b)
      → WellFormed m.fields
      → WellFormed (resize b id num_cells m).1.fields
  unfolding resize
  resize-WellFormed id num_cells m well = elim (Option-cases (find id m.fields)) [
    | inl e ↦ simp (e, resize) well
    | inr (s, e) ↦
        let bytes = compute_aligned_size (bytes_per_cell s.descriptor) num_cells in
        elim (Bool-cases (num_cells == s.num_cells)) [
          | inl same ↦ simp (e, same, resize) well
          | inr differ ↦
              simp (e, differ, resize)
                (finish_resize-WellFormed id num_cells s m (b.allocate_buffer bytes m.world)
                  (well id s e) well (λ buffer given. exact bytes m.world buffer given))
        ]
  ]

  deallocate-WellFormed :
      (id : ℕ) (m : Manager b) → WellFormed m.fields → WellFormed (deallocate b id m).fields
  unfolding deallocate
  deallocate-WellFormed id m well = elim (Option-cases (find id m.fields)) [
    | inl e ↦ simp (e, deallocate) well
    | inr (s, e) ↦ simp (e, deallocate) (erase-WellFormed m.fields id well)
  ]

  mark_dirty-WellFormed :
      (id : ℕ) (m : Manager b) → WellFormed m.fields → WellFormed (mark_dirty b id m).1.fields
  unfolding mark_dirty
  mark_dirty-WellFormed id m well = elim (Option-cases (find id m.fields)) [
    | inl e ↦ simp (e, mark_dirty) well
    | inr (s, e) ↦
        simp (e, mark_dirty)
          (store-WellFormed m.fields id _ well
            (marked-WellState id (next_version s.version) true s (well id s e)))
  ]

  mark_clean-WellFormed :
      (id : ℕ) (m : Manager b) → WellFormed m.fields → WellFormed (mark_clean b id m).1.fields
  unfolding mark_clean
  mark_clean-WellFormed id m well = elim (Option-cases (find id m.fields)) [
    | inl e ↦ simp (e, mark_clean) well
    | inr (s, e) ↦
        simp (e, mark_clean)
          (store-WellFormed m.fields id _ well
            (marked-WellState id s.version false s (well id s e)))
  ]

  unfoldable pub replay : List Call → Manager b → Manager b
  replay [] m = m
  replay (c ∷ cs) m = replay cs (apply c m)

  apply-WellFormed :
      (c : Call) (m : Manager b) → WellFormed m.fields → WellFormed (apply c m).fields
  unfolding apply
  apply-WellFormed (allocated desc num_cells) m well = allocate-WellFormed desc num_cells m well
  apply-WellFormed (resized_to id num_cells) m well = resize-WellFormed id num_cells m well
  apply-WellFormed (freed id) m well = deallocate-WellFormed id m well
  apply-WellFormed (dirtied id) m well = mark_dirty-WellFormed id m well
  apply-WellFormed (cleaned id) m well = mark_clean-WellFormed id m well

  replay-kept :
      (calls : List Call) (m : Manager b) → WellFormed m.fields → WellFormed (replay calls m).fields
  unfolding replay
  replay-kept [] m well = well
  replay-kept (c ∷ cs) m well = replay-kept cs (apply c m) (apply-WellFormed c m well)

  -- After any calls on a manager without fields, every field that is kept has a valid descriptor
  -- with its id, one pointer for each component at a multiple of the bytes of a cell behind the start
  -- of the buffer, and a buffer for its number of cells, each aligned to 64 bytes.
  pub replay-WellFormed :
      (calls : List Call) (w : b.World)
      → WellFormed (replay calls (record { fields = []; world = w })).fields
  replay-WellFormed calls w =
      replay-kept calls (record { fields = []; world = w })
        (λ id s found. unfold find in absurd (cc found))
