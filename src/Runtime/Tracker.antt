-- ===== src/Runtime/Tracker.antt =====
-- `FieldVersionTracker` (include/fluidloom/runtime/dependency/FieldVersionTracker.h,
-- src/runtime/dependency/FieldVersionTracker.cpp). A writer holds the lock and a
-- read is atomic, so each call is one step here. Versions and the epoch are 64-bit and wrap.
pub mod Refines
pub mod Counts
use fluidloom.Prelude.{
  ℕ, ◌+◌, ◌%◌, ◌^◌, List, [], ◌∷◌, Option, none, some, String, Bool, true, false, ℤ, negsuc, Result,
  ok, err,
}
use fluidloom.Prelude.Dict.{Dict, lookup, insert, map_values}

pub data TrackerError : Type 0 where
  not_registered : TrackerError

pub record Tracker : Type 0 where
  pub versions : Dict ℕ
  pub last_writer : Dict ℤ
  pub global_epoch : ℕ

abbrev pub new_tracker : Tracker
new_tracker = record { versions = []; last_writer = []; global_epoch = 0 }

abbrev pub no_writer : ℤ
no_writer = negsuc 0

-- `fetch_add(1) + 1` on a `uint64_t`.
abbrev pub next_u64 : ℕ → ℕ
next_u64 v = (v + 1) % 2 ^ 64

unfoldable pub register_field : String → Tracker → Tracker
register_field name t = elim (lookup name t.versions) [
  | some v ↦ t
  | none ↦ record t {
    versions = insert name 0 t.versions;
    last_writer = insert name no_writer t.last_writer;
  }
]

unfoldable pub get_version : String → Tracker → Result TrackerError ℕ
get_version name t = elim (lookup name t.versions) [ some v ↦ ok v | none ↦ err not_registered ]

-- The new version, and the tracker after the call.
unfoldable pub increment_version : String → ℤ → Tracker → Result TrackerError ℕ × Tracker
increment_version name node_id t = elim (lookup name t.versions) [
  | some v ↦ (
    ok (next_u64 v),
    record t {
      versions = insert name (next_u64 v) t.versions;
      last_writer = insert name node_id t.last_writer;
    },
  )
  | none ↦ (err not_registered, t)
]

unfoldable pub get_last_writer : String → Tracker → ℤ
get_last_writer name t = elim (lookup name t.last_writer) [ some w ↦ w | none ↦ no_writer ]

unfoldable pub increment_epoch : Tracker → ℕ × Tracker
increment_epoch t = (next_u64 t.global_epoch, record t { global_epoch = next_u64 t.global_epoch })

unfoldable pub get_current_epoch : Tracker → ℕ
get_current_epoch t = t.global_epoch

unfoldable pub reset_all : Tracker → Tracker
reset_all t = record {
  versions = map_values (λ v. 0) t.versions;
  last_writer = map_values (λ w. no_writer) t.last_writer;
  global_epoch = 0;
}
