-- ===== src/Tests/Storage.antt =====
-- A device that gives out its memory in order, and a field of three floats for ten cells.
use fluidloom.Prelude.{ℕ, ◌+◌, ◌≡◌, refl, List, [], ◌∷◌, some, false}
use fluidloom.Fields.Descriptor.{FieldDescriptor, float32, arithmetic, zeroed, descriptor_valid}
use fluidloom.Prelude.Dict.{lookup, insert}
use fluidloom.Fields.Registry.{
  new_registry, register_descriptor, register_all, lookup_by_name, first_valid, or_else,
  lookup_by_name-register_all,
}
use fluidloom.Fields.Manager.{Backend, Manager, FieldState, new_state, allocate, component_ptrs}
use fluidloom.Fields.Manager.ById.{find, store}
use fluidloom.Fields.Manager.Sound.{Exact, WellFormed}
use fluidloom.Fields.Manager.Calls.{
  Call, allocated, resized_to, dirtied, replay, apply, replay-WellFormed,
}

abbrev linear : Backend
linear = record {
  World = ℕ;
  allocate_buffer = λ bytes w. (some (record { device_pointer = w; size = bytes }), w + bytes);
  copy_device_to_device = λ from to bytes w. w;
  free_buffer = λ buffer w. w;
}

linear-Exact : Exact linear
linear-Exact bytes w buffer given = cc

abbrev density : FieldDescriptor
density = record {
  id = 7;
  name = "velocity";
  type = float32;
  num_components = 3;
  halo_depth = 1;
  avg_rule = arithmetic;
  solid_scheme = zeroed;
  default_values = 3;
  is_visualization_field = false;
  is_mask = false;
  is_material = false;
  gpu_state = record { version = 0; bytes_allocated = 0; device_ptr = 0; is_dirty = false };
}

abbrev calls : List (Call linear linear-Exact)
calls = allocated density 10 ∷ dirtied 7 ∷ resized_to 7 20 ∷ []

replay-WellFormed_example :
    WellFormed (replay linear linear-Exact calls (record { fields = []; world = 4096 })).fields
replay-WellFormed_example = replay-WellFormed linear linear-Exact calls 4096

abbrev state : FieldState
state = new_state linear density 10 (record { device_pointer = 4096; size = 640 })

abbrev one_field : Manager linear
one_field = record { fields = (7, state) ∷ []; world = 4736 }

one_found : find 7 one_field.fields ≡ some state
unfolding find
one_found = refl

allocated_once : (allocate linear density 10 (record { fields = []; world = 4096 })).1 ≡ one_field
unfolding allocate find store descriptor_valid
allocated_once = refl

one-WellFormed : WellFormed one_field.fields
unfolding replay apply allocate find store descriptor_valid component_ptrs
one-WellFormed = replay-WellFormed linear linear-Exact (allocated density 10 ∷ []) 4096

-- A second descriptor under the same name, and one without a name.
abbrev again : FieldDescriptor
again = record density { halo_depth = 2 }

abbrev nameless : FieldDescriptor
nameless = record density { name = "" }

lookup_by_name-register_all_example :
    lookup_by_name "velocity" (register_all (nameless ∷ density ∷ again ∷ []) new_registry)
    ≡ or_else
        (lookup_by_name "velocity" new_registry)
        (first_valid "velocity" (nameless ∷ density ∷ again ∷ []))
lookup_by_name-register_all_example =
    lookup_by_name-register_all "velocity" (nameless ∷ density ∷ again ∷ []) new_registry

first_kept :
    lookup_by_name "velocity" (register_all (nameless ∷ density ∷ again ∷ []) new_registry)
    ≡ some density
unfolding lookup_by_name register_all register_descriptor descriptor_valid lookup insert
first_kept = refl
