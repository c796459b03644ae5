-- ===== src/Tests/Packing.antt =====
-- A pack buffer of 160 bytes for a density and a velocity of 4 bytes each: ten cells.
use fluidloom.Prelude.{◌+◌, ◌≤◌, ◌≡◌, refl, inl, arith, [], ◌∷◌}
use fluidloom.Halo.Layout.{FieldLayout, PackBufferLayout, get_offset}
use fluidloom.Halo.Layout.Packed.{Packed}
use fluidloom.Halo.Layout.Places.{get_offset_ordered}

abbrev density : PackBufferLayout
density = record {
  capacity_bytes = 160;
  used_bytes = 0;
  fields =
      record { field_name = "rho"; num_components = 1; bytes_per_component = 4; offset_in_cell = 0 }
      ∷ [];
  cell_size_bytes = 4;
}

abbrev velocity : FieldLayout
velocity = record {
  field_name = "u";
  num_components = 3;
  bytes_per_component = 4;
  offset_in_cell = 4;
}

abbrev both : PackBufferLayout
both = record density {
  fields =
      record { field_name = "rho"; num_components = 1; bytes_per_component = 4; offset_in_cell = 0 }
      ∷ velocity
      ∷ [];
  cell_size_bytes = 16;
}

density-Packed : Packed density.fields 0 4
unfolding Packed
density-Packed = (refl, refl)

both-Packed : Packed both.fields 0 16
unfolding Packed
both-Packed = (refl, (refl, refl))

get_offset_ordered_example :
    (get_offset both 0 0 9 + 4 ≤ get_offset both 1 2 3) × (get_offset both 1 2 3 + 4 ≤ 160)
get_offset_ordered_example =
    get_offset_ordered both both-Packed (omega arith) 0 0 9 1 2 3
      (record {
        field_name = "rho";
        num_components = 1;
        bytes_per_component = 4;
        offset_in_cell = 0;
      })
      velocity refl refl (omega arith) (omega arith) (omega arith) (omega arith) (inl (omega arith))

offset_run : get_offset both 1 2 3 ≡ 132
unfolding get_offset
offset_run = refl
