-- ===== src/Runtime/Tracker/Counts.antt =====
-- The version of a field is the number of writes to it, modulo 2^64.
use text.Mathlib.Text.{◌==◌ as str_eq}
use text.Mathlib.TextPositions.{eq_refl}
use fluidloom.Prelude.{
  ℕ, ◌+◌, ◌<◌, ◌%◌, ◌^◌, ◌≡◌, refl, ap, ◌∙◌, inl, inr, List, [], ◌∷◌, arith, none, some, String,
  Bool, true, false, ℤ, ok, if◌then◌else◌, Bool-cases,
}
use fluidloom.Runtime.Tracker.{new_tracker, no_writer, next_u64, get_version}
use fluidloom.Runtime.Tracker.Refines.{
  Call, register, increment, epoch, reset, replay, field_step, field_after, tracker_refines,
  version_of,
}

-- The writes to a field among some calls.
unfoldable pub writes_to : String → List Call → ℕ
writes_to name [] = 0
writes_to name (increment other id ∷ cs) = (if str_eq other name then 1 else 0) + writes_to name cs
writes_to name (c ∷ cs) = writes_to name cs

abbrev pub is_reset : Call → Bool
is_reset reset = true
is_reset (register name) = false
is_reset (increment name id) = false
is_reset epoch = false

abbrev pub NoReset : List Call → Type 0
NoReset [] = Unit
NoReset (c ∷ cs) = (is_reset c ≡ false) × NoReset cs

field_counts :
    (name : String) (calls : List Call) (v : ℕ) (w : ℤ)
    → NoReset calls
    → v < 2 ^ 64
    → (u : ℕ) × (x : ℤ) × (field_after name calls (some (v, w)) ≡ some (u, x))
      × (u ≡ (v + writes_to name calls) % 2 ^ 64)
unfolding field_after field_step writes_to
field_counts name [] v w none_resets lt = (v, w, refl, omega arith)
field_counts name (register other ∷ cs) v w none_resets lt =
    let (u, x, e, n) = field_counts name cs v w none_resets.1 lt in (u, x, ground (arith, e), n)
field_counts name (increment other id ∷ cs) v w none_resets lt =
    elim (Bool-cases (str_eq other name)) [
      | inl same ↦
          let (u, x, e, n) = field_counts name cs (next_u64 v) id none_resets.1 (omega arith) in
          (u, x, rw same e, rw same (omega (arith, n)))
      | inr differ ↦
          let (u, x, e, n) = field_counts name cs v w none_resets.1 lt in
          (u, x, rw differ e, rw differ (omega (arith, n)))
    ]
field_counts name (epoch ∷ cs) v w none_resets lt = field_counts name cs v w none_resets.1 lt
field_counts name (reset ∷ cs) v w none_resets lt = cc

registered :
    (name : String) (calls : List Call)
    → field_after name (register name ∷ calls) none ≡ field_after name calls (some (0, no_writer))
unfolding field_after field_step
registered name calls = rw (eq_refl name) refl

-- A field that is registered and never reset has, after any calls, the number of the writes to it
-- as its version, modulo 2^64.
pub version_counts :
    (name : String) (calls : List Call)
    → NoReset calls
    → get_version name (replay (register name ∷ calls) new_tracker)
      ≡ ok (writes_to name calls % 2 ^ 64)
version_counts name calls none_resets =
    (tracker_refines name (register name ∷ calls)).0
    ∙ ap version_of (registered name calls)
    ∙ counted
  where
    counted :
        version_of (field_after name calls (some (0, no_writer)))
        ≡ ok (writes_to name calls % 2 ^ 64)
    counted =
        let (u, x, e, n) = field_counts name calls 0 no_writer none_resets (omega arith) in
        ap version_of e ∙ ap ok (omega (arith, n))
