-- ===== src/Tests/Devices.antt =====
-- A mock backend that gives buffers until a request is too large, and a copy there and back.
use fluidloom.Prelude.{ℕ, ◌≡◌, ◌≤◌, refl, List, [], ◌∷◌, none, some, Bool, true, pos, ok, arith}
use fluidloom.Devices.Mock.{
  mock_memory_limit, initialize, shutdown, zeros, copied, copy_bytes, allocate_buffer,
  copy_host_to_device, copy_device_to_host, copy_device_to_device,
}
use fluidloom.Devices.Mock.Copies.{copy_device_to_host-round_trip}
use fluidloom.Devices.Mock.Ledger.{Call, start, request, step, run, new_run, sizes, run_new-Counts}

abbrev plenty : ℕ → Bool
plenty size = true

abbrev bytes : List ℕ
bytes = 7 ∷ 8 ∷ 9 ∷ []

abbrev calls : List Call
calls =
    start (pos 0)
    ∷ request 3 (some bytes)
    ∷ request mock_memory_limit none
    ∷ start (pos 0)
    ∷ request 4 none
    ∷ []

run_new-Counts_example :
    ((run plenty calls new_run).backend.allocated_bytes ≡ sizes (run plenty calls new_run).given)
    × ((run plenty calls new_run).backend.allocated_bytes ≤ mock_memory_limit)
run_new-Counts_example = run_new-Counts plenty calls

counted : (run plenty calls new_run).given ≡ 4 ∷ 3 ∷ []
unfolding run step initialize shutdown allocate_buffer zeros copy_bytes
counted = refl

sent : copy_host_to_device (some bytes) (0 ∷ 0 ∷ 0 ∷ 0 ∷ []) 3 ≡ ok (7 ∷ 8 ∷ 9 ∷ 0 ∷ [])
unfolding copy_host_to_device copy_bytes
sent = refl

moved : copy_device_to_device (7 ∷ 8 ∷ 9 ∷ 0 ∷ []) (1 ∷ 1 ∷ []) 2 ≡ ok (7 ∷ 8 ∷ [])
unfolding copy_device_to_device copy_bytes
moved = refl

copy_device_to_host-round_trip_example :
    copy_device_to_host (7 ∷ 8 ∷ []) (some (0 ∷ 0 ∷ 0 ∷ [])) 2
    ≡ copied (copy_bytes 2 bytes (0 ∷ 0 ∷ 0 ∷ []))
copy_device_to_host-round_trip_example =
    copy_device_to_host-round_trip 3 2 2 bytes (0 ∷ 0 ∷ 0 ∷ []) (0 ∷ 0 ∷ 0 ∷ 0 ∷ []) (1 ∷ 1 ∷ [])
      (7 ∷ 8 ∷ 9 ∷ 0 ∷ []) (7 ∷ 8 ∷ []) sent moved (omega arith) (omega arith)
