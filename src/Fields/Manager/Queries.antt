-- ===== src/Fields/Manager/Queries.antt =====
-- What the manager answers about a field that it keeps.
use fluidloom.Prelude.{
  ℕ, ◌+◌, ◌*◌, ◌≡◌, ◌≢◌, refl, ap, ◌∙◌, inl, inr, arith, some, true, false, Bool-cases, ltb, ◌==◌,
  if◌then◌else◌, ok, err,
}
use fluidloom.Fields.Descriptor.{bytes_per_cell}
use fluidloom.Fields.Manager.{
  Backend, out_of_range, FieldState, set_dirty, next_version, Manager, get_field_state,
  get_device_ptr, mark_dirty, mark_clean, is_dirty, get_field_version,
}
use fluidloom.Fields.Manager.ById.{Table, find, store, find-store}
use fluidloom.Fields.Manager.Sound.{WellFormed}

find_stored : (id : ℕ) (s : FieldState) (t : Table FieldState) → find id (store id s t) ≡ some s
find_stored id s t =
    let same : (id == id) ≡ true = ground arith in find-store id id s t ∙ rw same refl

find_other :
    (id other : ℕ) (s : FieldState) (t : Table FieldState)
    → id ≢ other
    → find other (store id s t) ≡ find other t
find_other id other s t ne =
    let apart : (id == other) ≡ false = ground (arith, ne) in
    find-store id other s t ∙ rw apart refl

module _ (b : Backend) (m : Manager b) (id : ℕ) (s : FieldState)
    (found : find id m.fields ≡ some s) where
  -- For a field of a well-formed manager, `getDevicePtr` gives the pointer of each component, which
  -- lies as many whole cells behind the start of the buffer as there are components before it, and
  -- throws for any other component.
  pub get_device_ptr_lem :
      (component : ℕ)
      → WellFormed m.fields
      → get_device_ptr b id component m ≡ (
          if ltb component s.descriptor.num_components
          then ok (s.device_buffer.device_pointer + component * bytes_per_cell s.descriptor)
          else err out_of_range)
  unfolding get_device_ptr get_field_state
  get_device_ptr_lem component well =
      let state = well id s found in
      elim (Bool-cases (ltb component s.descriptor.num_components)) [
        | inl inside ↦
            simp (found, inside, get_field_state, get_device_ptr)
              (ap ok (state.located component (ground (arith, inside))))
        | inr outside ↦ simp (found, outside, get_field_state, get_device_ptr) refl
      ]

  -- A field of the manager that is marked dirty is dirty at the next version, is clean at the same
  -- version once it is marked clean, and no other field changes.
  pub mark_dirty_lem :
      let m1 = (mark_dirty b id m).1 in
      let m2 = (mark_clean b id m1).1 in
      (is_dirty b id m1 ≡ ok true)
      × (get_field_version b id m1 ≡ ok (next_version s.version))
      × (is_dirty b id m2 ≡ ok false)
      × (get_field_version b id m2 ≡ ok (next_version s.version))
      × ((other : ℕ) → id ≢ other → find other m2.fields ≡ find other m.fields)
  unfolding mark_dirty mark_clean is_dirty get_field_state get_field_version
  mark_dirty_lem =
      let s1 : FieldState = record s {
        version = next_version s.version;
        descriptor = set_dirty true s.descriptor;
      } in
      let s2 : FieldState = record s1 { descriptor = set_dirty false s1.descriptor } in
      let f1 = find_stored id s1 m.fields in
      let f2 = find_stored id s2 (store id s1 m.fields) in
      simp (found, f1, f2, mark_dirty, mark_clean, is_dirty, get_field_version, get_field_state)
        (
          refl,
          refl,
          refl,
          refl,
          (λ other ne.
              find_other id other s2 (store id s1 m.fields) ne
              ∙ find_other id other s1 m.fields ne),
        )
