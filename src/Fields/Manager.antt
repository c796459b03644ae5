-- ===== src/Fields/Manager.antt =====
-- `SOAFieldManager` (include/fluidloom/core/fields/SOAFieldManager.h,
-- src/core/fields/SOAFieldManager.cpp). Every call holds the lock, so it is one step here.
-- The backend is an interface of the engine whose OpenCL implementation calls code outside the
-- repository: it is a parameter. Sizes are 64-bit and wrap.
pub mod ById
pub mod Sound
pub mod Calls
pub mod Queries
use ById.{Table, find, store, erase}
use fluidloom.Prelude.{
  ℕ, zero, suc, ◌+◌, ◌*◌, ◌/◌, ◌%◌, ◌^◌, min, List, [], ◌∷◌, Option, none, some, Bool, true, false,
  ltb, ◌==◌, get_or, if◌then◌else◌, Result, ok, err, ◌>>=◌,
}
use fluidloom.Fields.Descriptor.{FieldDescriptor, bytes_per_cell, descriptor_valid}

pub record Buffer : Type 0 where
  pub device_pointer : ℕ
  pub size : ℕ

-- The device, and what the calls of the backend do to it. A null buffer is `none`.
pub record Backend : Type 1 where
  pub World : Type 0
  pub allocate_buffer : ℕ → World → Option Buffer × World
  pub copy_device_to_device : Buffer → Buffer → ℕ → World → World
  pub free_buffer : Buffer → World → World

pub data FieldError : Type 0 where
  invalid_descriptor already_allocated allocation_failed not_found out_of_range : FieldError

pub record FieldState : Type 0 where
  pub descriptor : FieldDescriptor
  pub num_cells : ℕ
  pub device_ptrs : List ℕ
  pub device_buffer : Buffer
  pub version : ℕ
  pub pitch : ℕ

-- `(bytes_per_cell + 63) & ~63`.
abbrev pub aligned_cell_size : ℕ → ℕ
aligned_cell_size bytes = (bytes + 63) / 64 * 64

abbrev pub compute_aligned_size : ℕ → ℕ → ℕ
compute_aligned_size bytes num_cells = aligned_cell_size bytes * num_cells % 2 ^ 64

-- The loop over the components `comp`, …, with `left` of them to come.
unfoldable pub component_ptrs : ℕ → ℕ → ℕ → ℕ → List ℕ
component_ptrs base bytes zero comp = []
component_ptrs base bytes (suc left) comp =
    (base + comp * bytes) ∷ component_ptrs base bytes left (suc comp)

abbrev pub set_dirty : Bool → FieldDescriptor → FieldDescriptor
set_dirty dirty d = record d { gpu_state = record d.gpu_state { is_dirty = dirty } }

abbrev pub next_version : ℕ → ℕ
next_version v = (v + 1) % 2 ^ 64

module _ (b : Backend) where
  open b use {World, allocate_buffer, copy_device_to_device, free_buffer}

  pub record Manager : Type 0 where
    pub fields : Table FieldState
    pub world : World

  abbrev pub new_state : FieldDescriptor → ℕ → Buffer → FieldState
  new_state desc num_cells buffer = record {
    descriptor = desc;
    num_cells = num_cells;
    device_ptrs = component_ptrs buffer.device_pointer (bytes_per_cell desc) desc.num_components 0;
    device_buffer = buffer;
    version = 1;
    pitch = aligned_cell_size (bytes_per_cell desc);
  }

  -- The test for the buffer, and the new field.
  abbrev pub finish_allocate :
      FieldDescriptor → ℕ → Manager → Option Buffer × World → Result FieldError ℕ × Manager
  finish_allocate desc num_cells m (none, w) = (err allocation_failed, record m { world = w })
  finish_allocate desc num_cells m (some buffer, w) = (
    ok desc.id,
    record { fields = store desc.id (new_state desc num_cells buffer) m.fields; world = w },
  )

  unfoldable pub allocate : FieldDescriptor → ℕ → Manager → Result FieldError ℕ × Manager
  allocate desc num_cells m =
      if descriptor_valid desc
      then (elim (find desc.id m.fields) [
        | some s ↦ (err already_allocated, m)
        | none ↦
            finish_allocate desc num_cells m
              (allocate_buffer (compute_aligned_size (bytes_per_cell desc) num_cells) m.world)
      ])
      else (err invalid_descriptor, m)

  abbrev pub resized : ℕ → FieldState → Buffer → FieldState
  resized new_num_cells s buffer = record {
    descriptor = set_dirty true s.descriptor;
    num_cells = new_num_cells;
    device_ptrs =
        component_ptrs buffer.device_pointer (bytes_per_cell s.descriptor)
          s.descriptor.num_components 0;
    device_buffer = buffer;
    version = next_version s.version;
    pitch = s.pitch;
  }

  -- The copy of what fits in both buffers; the old buffer is freed when it is replaced.
  abbrev pub copy_cells : ℕ → FieldState → Buffer → World → World
  copy_cells new_num_cells s buffer w =
      let bytes =
        compute_aligned_size (bytes_per_cell s.descriptor) (min s.num_cells new_num_cells) in
      free_buffer s.device_buffer
        (if ltb 0 bytes then copy_device_to_device s.device_buffer buffer bytes w else w)

  abbrev pub finish_resize :
      ℕ → ℕ → FieldState → Manager → Option Buffer × World → Result FieldError Unit × Manager
  finish_resize id new_num_cells s m (none, w) = (err allocation_failed, record m { world = w })
  finish_resize id new_num_cells s m (some buffer, w) = (
    ok tt,
    record {
      fields = store id (resized new_num_cells s buffer) m.fields;
      world = copy_cells new_num_cells s buffer w;
    },
  )

  unfoldable pub resize : ℕ → ℕ → Manager → Result FieldError Unit × Manager
  resize id new_num_cells m = elim (find id m.fields) [
    | none ↦ (err not_found, m)
    | some s ↦
        if new_num_cells == s.num_cells
        then (ok tt, m)
        else finish_resize id new_num_cells s m (
            allocate_buffer (compute_aligned_size (bytes_per_cell s.descriptor) new_num_cells)
              m.world)
  ]

  unfoldable pub deallocate : ℕ → Manager → Manager
  deallocate id m = elim (find id m.fields) [
    | none ↦ m
    | some s ↦ record { fields = erase id m.fields; world = free_buffer s.device_buffer m.world }
  ]

  unfoldable pub get_field_state : ℕ → Manager → Result FieldError FieldState
  get_field_state id m = elim (find id m.fields) [ none ↦ err not_found | some s ↦ ok s ]

  unfoldable pub get_device_ptr : ℕ → ℕ → Manager → Result FieldError ℕ
  get_device_ptr id component m = get_field_state id m >>= λ s.
      if ltb component s.descriptor.num_components
      then ok (get_or s.device_ptrs component 0)
      else err out_of_range

  unfoldable pub mark_dirty : ℕ → Manager → Result FieldError Unit × Manager
  mark_dirty id m = elim (find id m.fields) [
    | none ↦ (err not_found, m)
    | some s ↦ (
      ok tt,
      record m {
        fields =
            store id
              (record s {
                version = next_version s.version;
                descriptor = set_dirty true s.descriptor;
              })
              m.fields;
      },
    )
  ]

  unfoldable pub mark_clean : ℕ → Manager → Result FieldError Unit × Manager
  mark_clean id m = elim (find id m.fields) [
    | none ↦ (err not_found, m)
    | some s ↦ (
      ok tt,
      record m {
        fields = store id (record s { descriptor = set_dirty false s.descriptor }) m.fields;
      },
    )
  ]

  pub get_descriptor : ℕ → Manager → Result FieldError FieldDescriptor
  get_descriptor id m = get_field_state id m >>= λ s. ok s.descriptor

  pub get_allocation_size : ℕ → Manager → Result FieldError ℕ
  get_allocation_size id m = get_field_state id m >>= λ s. ok s.num_cells

  unfoldable pub is_dirty : ℕ → Manager → Result FieldError Bool
  is_dirty id m = get_field_state id m >>= λ s. ok s.descriptor.gpu_state.is_dirty

  unfoldable pub get_field_version : ℕ → Manager → Result FieldError ℕ
  get_field_version id m = get_field_state id m >>= λ s. ok s.version

  unfoldable pub get_memory_usage : ℕ → Manager → Result FieldError ℕ
  get_memory_usage id m = get_field_state id m >>= λ s. ok s.device_buffer.size

  unfoldable pub total_size : Table FieldState → ℕ
  total_size [] = 0
  total_size ((id, s) ∷ rest) = (s.device_buffer.size + total_size rest) % 2 ^ 64

  pub get_total_memory_usage : Manager → ℕ
  get_total_memory_usage m = total_size m.fields
