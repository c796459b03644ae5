-- ===== src/Tests/Tracking.antt =====
-- The version tracker: a field that is registered and written twice.
use fluidloom.Prelude.{◌≡◌, List, [], ◌∷◌, pos, none}
use fluidloom.Runtime.Tracker.{new_tracker, get_version, get_last_writer}
use fluidloom.Runtime.Tracker.Refines.{
  Call, register, increment, epoch, replay, field_after, version_of, writer_of, tracker_refines,
}

abbrev calls : List Call
calls =
    increment "rho" (pos 3)
    ∷ epoch
    ∷ register "u"
    ∷ increment "u" (pos 5)
    ∷ increment "rho" (pos 4)
    ∷ []

tracker_refines_example :
    (get_version "u" (replay calls new_tracker) ≡ version_of (field_after "u" calls none))
    × (get_last_writer "u" (replay calls new_tracker) ≡ writer_of (field_after "u" calls none))
tracker_refines_example = tracker_refines "u" calls
