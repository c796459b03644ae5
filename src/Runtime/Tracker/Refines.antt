-- ===== src/Runtime/Tracker/Refines.antt =====
-- Seen from one field, the tracker is a counter of the field's writes: what happens to the other
-- fields does not show.
use mathlib.Core.Option
use text.Mathlib.Text.{◌==◌ as str_eq}
use text.Mathlib.TextEquality.{eq_iff}
use fluidloom.Prelude.{
  ℕ, ◌≡◌, refl, ap, ◌∙◌, inl, inr, List, [], ◌∷◌, arith, Option, none, some, Option-cases, String,
  true, ℤ, Result, ok, err, if◌then◌else◌, Bool-cases,
}
use fluidloom.Prelude.Dict.{lookup, lookup-insert, lookup-map_values}
use fluidloom.Runtime.Tracker.{
  Tracker, TrackerError, not_registered, new_tracker, no_writer, next_u64, register_field,
  get_version, increment_version, get_last_writer, increment_epoch, reset_all,
}

-- The calls that change a tracker.
pub data Call : Type 0 where
  register : String → Call
  increment : String → ℤ → Call
  epoch : Call
  reset : Call

unfoldable pub apply : Call → Tracker → Tracker
apply (register name) t = register_field name t
apply (increment name id) t = (increment_version name id t).1
apply epoch t = (increment_epoch t).1
apply reset t = reset_all t

unfoldable pub replay : List Call → Tracker → Tracker
replay [] t = t
replay (c ∷ cs) t = replay cs (apply c t)

-- One field: not registered, or a version and the node that wrote last.
abbrev pub Field : Type 0
Field = Option (ℕ × ℤ)

abbrev pub write : ℤ → Field → Field
write id none = none
write id (some (v, w)) = some (next_u64 v, id)

abbrev pub enrol : Field → Field
enrol none = some (0, no_writer)
enrol (some x) = some x

abbrev pub renew : Field → Field
renew none = none
renew (some x) = some (0, no_writer)

unfoldable pub field_step : String → Call → Field → Field
field_step name (register other) s = if str_eq other name then enrol s else s
field_step name (increment other id) s = if str_eq other name then write id s else s
field_step name epoch s = s
field_step name reset s = renew s

unfoldable pub field_after : String → List Call → Field → Field
field_after name [] s = s
field_after name (c ∷ cs) s = field_after name cs (field_step name c s)

-- The tracker's two maps hold for `name` what the field's state says.
abbrev pub Shows : String → Tracker → Field → Type 0
Shows name t none = (lookup name t.versions ≡ none) × (lookup name t.last_writer ≡ none)
Shows name t (some (v, w)) =
    (lookup name t.versions ≡ some v) × (lookup name t.last_writer ≡ some w)

same_lookup :
    (t : Tracker) (k j : String) → str_eq k j ≡ true → lookup k t.versions ≡ lookup j t.versions
same_lookup t k j e = ap (λ (x : String). lookup x t.versions) ((eq_iff k j).0 e)

apply-Shows :
    (name : String) (c : Call) (t : Tracker) (s : Field)
    → Shows name t s
    → Shows name (apply c t) (field_step name c s)
unfolding apply field_step register_field increment_version increment_epoch reset_all
apply-Shows name (register other) t none h = elim (Bool-cases (str_eq other name)) [
  | inl same ↦
      let e = (eq_iff other name).0 same in
      rw same (
        ground (
          arith,
          ap (λ (x : String). lookup x t.versions) e,
          lookup-insert other name 0 t.versions,
          lookup-insert other name no_writer t.last_writer,
          same,
        ))
  | inr differ ↦ rw differ (
      ground (
        arith,
        lookup-insert other name 0 t.versions,
        lookup-insert other name no_writer t.last_writer,
        differ,
      ))
]
apply-Shows name (register other) t (some (v, w)) h = elim (Bool-cases (str_eq other name)) [
  | inl same ↦
      let e = (eq_iff other name).0 same in
      rw same (
        ground (
          arith,
          ap (λ (x : String). lookup x t.versions) e,
          lookup-insert other name 0 t.versions,
          lookup-insert other name no_writer t.last_writer,
          same,
        ))
  | inr differ ↦ rw differ (
      ground (
        arith,
        lookup-insert other name 0 t.versions,
        lookup-insert other name no_writer t.last_writer,
        differ,
      ))
]
apply-Shows name (increment other id) t none h = elim (Option-cases (lookup other t.versions)) [
  | inl absent ↦ ground (arith, absent)
  | inr (u, e) ↦ elim (Bool-cases (str_eq other name)) [
    | inl same ↦ ground (
      arith,
      e,
      same,
      lookup-insert other name (next_u64 u) t.versions,
      lookup-insert other name id t.last_writer,
      same_lookup t other name same,
    )
    | inr differ ↦ ground (
      arith,
      e,
      differ,
      lookup-insert other name (next_u64 u) t.versions,
      lookup-insert other name id t.last_writer,
    )
  ]
]
apply-Shows name (increment other id) t (some (v, w)) h =
    elim (Option-cases (lookup other t.versions)) [
      | inl absent ↦ ground (arith, absent, eq_iff other name, same_lookup t other name)
      | inr (u, e) ↦ elim (Bool-cases (str_eq other name)) [
        | inl same ↦ ground (
          arith,
          e,
          same,
          lookup-insert other name (next_u64 u) t.versions,
          lookup-insert other name id t.last_writer,
          same_lookup t other name same,
        )
        | inr differ ↦ ground (
          arith,
          e,
          differ,
          lookup-insert other name (next_u64 u) t.versions,
          lookup-insert other name id t.last_writer,
        )
      ]
    ]
apply-Shows name epoch t none h = h
apply-Shows name epoch t (some (v, w)) h = h
apply-Shows name reset t none h = (
  lookup-map_values (λ v. 0) name t.versions ∙ ap (Option.map (λ v. 0)) h.0,
  lookup-map_values (λ w. no_writer) name t.last_writer ∙ ap (Option.map (λ w. no_writer)) h.1,
)
apply-Shows name reset t (some (v, w)) h = (
  lookup-map_values (λ v. 0) name t.versions ∙ ap (Option.map (λ v. 0)) h.0,
  lookup-map_values (λ w. no_writer) name t.last_writer ∙ ap (Option.map (λ w. no_writer)) h.1,
)

replay-Shows :
    (name : String) (calls : List Call) (t : Tracker) (s : Field)
    → Shows name t s
    → Shows name (replay calls t) (field_after name calls s)
unfolding replay field_after
replay-Shows name [] t s h = h
replay-Shows name (c ∷ cs) t s h =
    replay-Shows name cs (apply c t) (field_step name c s) (apply-Shows name c t s h)

-- What the two queries answer for a field's state.
abbrev pub version_of : Field → Result TrackerError ℕ
version_of none = err not_registered
version_of (some (v, w)) = ok v

abbrev pub writer_of : Field → ℤ
writer_of none = no_writer
writer_of (some (v, w)) = w

queries_of_Shows :
    (name : String) (t : Tracker) (s : Field)
    → Shows name t s
    → (get_version name t ≡ version_of s) × (get_last_writer name t ≡ writer_of s)
unfolding get_version get_last_writer
queries_of_Shows name t none (hv, hw) = (rw (hv, get_version) refl, rw (hw, get_last_writer) refl)
queries_of_Shows name t (some (v, w)) (hv, hw) =
    (rw (hv, get_version) refl, rw (hw, get_last_writer) refl)

-- After any sequence of calls on a new tracker, `getVersion` and `getLastWriter` answer for a field
-- as its own counter does, which the calls on other fields pass by.
pub tracker_refines :
    (name : String) (calls : List Call)
    → (get_version name (replay calls new_tracker) ≡ version_of (field_after name calls none))
      × (get_last_writer name (replay calls new_tracker) ≡ writer_of (field_after name calls none))
unfolding lookup
tracker_refines name calls =
    queries_of_Shows name (replay calls new_tracker) (field_after name calls none)
      (replay-Shows name calls new_tracker none (refl, refl))
