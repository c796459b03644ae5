-- ===== src/Tests/Cells.antt =====
-- Cells of the octree at levels 2 and 3.
use fluidloom.Prelude.{ℕ, ◌<◌, ◌≡◌, refl, pos, negsuc, ok, arith}
use fluidloom.Hilbert.Codec.{encode, decode, decode_loop, get_parent, inv_hilbert_table}
use fluidloom.Hilbert.Onto.{encode-decode}
use fluidloom.Hilbert.Coord.{CellCoord, hilbert, parent, child}
use fluidloom.Hilbert.Coord.Octree.{hilbert-parent, child-parent}

abbrev cell : CellCoord
cell = record { x = pos 5; y = negsuc 2; z = pos 6; level = 3 }

encode-decode_example : encode (decode 354 3).x (decode 354 3).y (decode 354 3).z 3 ≡ 354
encode-decode_example = encode-decode 354 3 (omega arith) (omega arith)

decode_run : decode 354 3 ≡ record { x = pos 5; y = pos 7; z = pos 6 }
unfolding decode decode_loop inv_hilbert_table
decode_run = refl

hilbert-parent_example :
    (p : CellCoord) × (parent cell ≡ ok p) × (get_parent (hilbert cell) 3 ≡ ok (hilbert p))
hilbert-parent_example = hilbert-parent cell (omega arith) (omega arith)

child-parent_example :
    (p : CellCoord) × (quadrant : ℕ) × (parent cell ≡ ok p)
    × (quadrant < 8)
    × (child p quadrant ≡ ok cell)
child-parent_example =
    child-parent cell (omega arith) (omega arith) (omega arith) (omega arith) (omega arith)
