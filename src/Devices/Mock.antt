-- ===== src/Devices/Mock.antt =====
-- `MockBackend` and `MockBuffer` (src/core/backend/MockBackend.cpp,
-- include/fluidloom/core/backend/MockBackend.h).
-- A buffer is the list of its bytes, a pointer of the host such a list, or none for the null pointer.
-- `host_has` tells whether the host has memory for a vector, a parameter. A `memcpy` that leaves the
-- bytes of one of its ends, which is undefined, is the error `overrun`. Logging and the kernels, whose
-- operations do nothing, are left out.
pub mod Copies
pub mod Ledger
use fluidloom.Prelude.{
  ℕ, zero, suc, ◌+◌, ◌*◌, ◌/◌, ◌%◌, ◌^◌, List, [], ◌∷◌, Option, none, some, Bool, true, false, not,
  ltb, leb, ◌==◌, if◌then◌else◌, ℤ, pos, eqb_ℤ, Result, ok, err,
}

pub data BackendError : Type 0 where
  already_initialized only_device_zero not_initialized zero_sized out_of_memory : BackendError
  too_long bad_alloc null_pointer overrun : BackendError

abbrev pub mock_memory_limit : ℕ
mock_memory_limit = 16 * 1024 * 1024 * 1024

abbrev pub MockBuffer : Type 0
MockBuffer = List ℕ

pub record MockBackend : Type 0 where
  pub initialized : Bool
  pub allocated_bytes : ℕ

abbrev pub new_backend : MockBackend
new_backend = record { initialized = false; allocated_bytes = 0 }

unfoldable pub initialize : ℤ → MockBackend → Result BackendError MockBackend
initialize device_id b =
    if b.initialized
    then err already_initialized
    else if not (eqb_ℤ device_id (pos 0))
    then err only_device_zero
    else ok (record { initialized = true; allocated_bytes = 0 })

unfoldable pub shutdown : MockBackend → Result BackendError MockBackend
shutdown b =
    if not b.initialized then err not_initialized else ok (record b { initialized = false })

unfoldable pub zeros : ℕ → MockBuffer
zeros zero = []
zeros (suc n) = 0 ∷ zeros n

-- `memcpy` of a number of bytes, or none where it leaves one of the lists.
unfoldable pub copy_bytes : ℕ → List ℕ → List ℕ → Option (List ℕ)
copy_bytes zero source target = some target
copy_bytes (suc n) [] target = none
copy_bytes (suc n) (s ∷ source) [] = none
copy_bytes (suc n) (s ∷ source) (t ∷ target) = elim (copy_bytes n source target) [
  | none ↦ none
  | some copied ↦ some (s ∷ copied)
]

abbrev pub copied : Option (List ℕ) → Result BackendError (List ℕ)
copied none = err overrun
copied (some bytes) = ok bytes

-- The constructor of `MockBuffer`.
abbrev pub mock_buffer : ℕ → Option (List ℕ) → Result BackendError MockBuffer
mock_buffer size none = ok (zeros size)
mock_buffer size (some initial_data) = copied (copy_bytes size initial_data (zeros size))

unfoldable pub allocate_buffer :
    (ℕ → Bool) → ℕ → Option (List ℕ) → MockBackend → Result BackendError (MockBuffer × MockBackend)
allocate_buffer host_has size initial_data b =
    let total = (b.allocated_bytes + size) % 2 ^ 64 in
    if not b.initialized
    then err not_initialized
    else if size == 0
    then err zero_sized
    else if ltb mock_memory_limit total
    then err out_of_memory
    else if not (ltb size (2 ^ 63))
    then err too_long
    else if not (host_has size)
    then err bad_alloc
    else elim (mock_buffer size initial_data) [
      | err e ↦ err e
      | ok buffer ↦ ok (buffer, record b { allocated_bytes = total })
    ]

unfoldable pub copy_host_to_device :
    Option (List ℕ) → MockBuffer → ℕ → Result BackendError MockBuffer
copy_host_to_device none device_dst size = err null_pointer
copy_host_to_device (some host_src) device_dst size = copied (copy_bytes size host_src device_dst)

unfoldable pub copy_device_to_host : MockBuffer → Option (List ℕ) → ℕ → Result BackendError (List ℕ)
copy_device_to_host device_src none size = err null_pointer
copy_device_to_host device_src (some host_dst) size = copied (copy_bytes size device_src host_dst)

unfoldable pub copy_device_to_device : MockBuffer → MockBuffer → ℕ → Result BackendError MockBuffer
copy_device_to_device src dst size = copied (copy_bytes size src dst)

abbrev pub get_max_allocation_size : ℕ
get_max_allocation_size = mock_memory_limit / 4

abbrev pub get_total_memory : ℕ
get_total_memory = mock_memory_limit
