-- ===== src/Fields/Registry.antt =====
-- `FieldRegistry` (include/fluidloom/core/registry/FieldRegistry.h,
-- src/core/registry/FieldRegistry.cpp). A writer holds the lock alone, so each call is one step.
use text.Mathlib.Text.{◌==◌ as str_eq}
use text.Mathlib.TextEquality.{eq_iff}
use fluidloom.Prelude.{
  ℕ, ◌≡◌, refl, sym, ◌∙◌, inl, inr, List, [], ◌∷◌, map, Option, none, some, Option-cases, String,
  Bool, true, false, Bool-cases, not, if◌then◌else◌,
}
use fluidloom.Prelude.Dict.{Dict, lookup, insert, lookup-insert}
use fluidloom.Fields.Descriptor.{FieldDescriptor, descriptor_valid}
use fluidloom.Fields.Manager.ById.{Table, find, store}

pub record FieldRegistry : Type 0 where
  pub by_name : Dict FieldDescriptor
  pub by_id : Table FieldDescriptor

abbrev pub new_registry : FieldRegistry
new_registry = record { by_name = []; by_id = [] }

unfoldable pub register_descriptor : FieldDescriptor → FieldRegistry → Bool × FieldRegistry
register_descriptor desc r =
    if not (descriptor_valid desc) then (false, r) else elim (lookup desc.name r.by_name) [
      | some known ↦ (false, r)
      | none ↦ (
        true,
        record { by_name = insert desc.name desc r.by_name; by_id = store desc.id desc r.by_id },
      )
    ]

unfoldable pub lookup_by_name : String → FieldRegistry → Option FieldDescriptor
lookup_by_name name r = lookup name r.by_name

unfoldable pub lookup_by_id : ℕ → FieldRegistry → Option FieldDescriptor
lookup_by_id id r = find id r.by_id

unfoldable pub name_exists : String → FieldRegistry → Bool
name_exists name r = elim (lookup name r.by_name) [ some found ↦ true | none ↦ false ]

unfoldable pub get_all_names : FieldRegistry → List String
get_all_names r = map (λ (name, desc). name) r.by_name

unfoldable pub clear_registry : FieldRegistry → FieldRegistry
clear_registry r = new_registry

unfoldable pub register_all : List FieldDescriptor → FieldRegistry → FieldRegistry
register_all [] r = r
register_all (d ∷ ds) r = register_all ds (register_descriptor d r).1

-- The first valid descriptor of a list with the name.
unfoldable pub first_valid : String → List FieldDescriptor → Option FieldDescriptor
first_valid name [] = none
first_valid name (d ∷ ds) =
    let rest = first_valid name ds in
    if not (descriptor_valid d) then rest else if str_eq d.name name then some d else rest

abbrev pub or_else : Option FieldDescriptor → Option FieldDescriptor → Option FieldDescriptor
or_else none other = other
or_else (some d) other = some d

or_else-none : (x : Option FieldDescriptor) → or_else x none ≡ x
or_else-none none = refl
or_else-none (some d) = refl

register_step :
    (name : String) (d : FieldDescriptor) (ds : List FieldDescriptor) (r : FieldRegistry)
    → or_else (lookup name (register_descriptor d r).1.by_name) (first_valid name ds)
      ≡ or_else (lookup name r.by_name) (first_valid name (d ∷ ds))
unfolding register_descriptor first_valid
register_step name d ds r = elim (Bool-cases (descriptor_valid d)) [
  | inr invalid ↦ simp (invalid, register_descriptor, first_valid) refl
  | inl v ↦ elim (Bool-cases (str_eq d.name name)) [
    | inl here ↦
        let same : d.name ≡ name = (eq_iff d.name name).0 here in
        elim (Option-cases (lookup d.name r.by_name)) [
          | inl fresh ↦
              let absent : lookup name r.by_name ≡ none = rw (← same) fresh in
              simp
                (
                  v,
                  fresh,
                  absent,
                  here,
                  lookup-insert d.name name d r.by_name,
                  register_descriptor,
                  first_valid,
                )
                refl
          | inr (x, known) ↦
              let present : lookup name r.by_name ≡ some x = rw (← same) known in
              simp (v, known, present, here, register_descriptor, first_valid) refl
        ]
    | inr away ↦ elim (Option-cases (lookup d.name r.by_name)) [
      | inl fresh ↦
          simp
            (
              v,
              fresh,
              away,
              lookup-insert d.name name d r.by_name,
              register_descriptor,
              first_valid,
            )
            refl
      | inr (x, known) ↦ simp (v, known, away, register_descriptor, first_valid) refl
    ]
  ]
]

-- After any registrations, a name leads to what it led to before, and otherwise to the first valid
-- descriptor with that name.
pub lookup_by_name-register_all :
    (name : String) (ds : List FieldDescriptor) (r : FieldRegistry)
    → lookup_by_name name (register_all ds r)
      ≡ or_else (lookup_by_name name r) (first_valid name ds)
unfolding lookup_by_name register_all
lookup_by_name-register_all name [] r =
    unfold first_valid in sym (or_else-none (lookup name r.by_name))
lookup_by_name-register_all name (d ∷ ds) r =
    lookup_by_name-register_all name ds (register_descriptor d r).1 ∙ register_step name d ds r
