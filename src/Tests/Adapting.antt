-- ===== src/Tests/Adapting.antt =====
-- Small meshes through the engines of the adaptation.
use mathlib.Core.List.Permᴰ
use mathlib.Core.List.{Permᴰ}
use fluidloom.Prelude.{
  ℕ, zero, suc, ◌+◌, ◌<◌, ◌≤◌, ◌≡◌, refl, List, [], ◌∷◌, Bool, true, false, length, pos, negsuc, ℤ,
  ok, In, inl, inr, arith,
}
use fluidloom.Adaptation.Curve.{
  point, hilbert_encode_3d, encode_3d_loop, rotation_table, direction_table, hilbert_decode_3d,
}
use fluidloom.Adaptation.Curve.Inverts.{decode_3d-encode_3d}
use fluidloom.Adaptation.Curve.Morton.{interleaved, encode_3d-interleaved}
use fluidloom.Adaptation.Cell.{
  CellDescriptor, cell, get_parent, get_child, is_sibling_of, is_first_sibling,
}
use fluidloom.Adaptation.Cell.Octet.{IsCell, get_child-octet}
use fluidloom.Adaptation.Probing.{HashState, new_hash_state, build_hash_table}
use fluidloom.Adaptation.Probing.Filled.{Built, build_hash_table-Built}
use fluidloom.Adaptation.Split.{
  SplitResult, can_split, scratch, block_starts, split_indices, total_children, split_count,
  generate_children, split_of, split,
}
use fluidloom.Adaptation.Buffers.{write_from}
use fluidloom.Adaptation.Split.Children.{children_of, splits, Splits}
use fluidloom.Adaptation.Split.Octants.{Octants, split-Octants}
use fluidloom.Adaptation.Scan.{
  exclusive_scan, total_sum, scan_local, tabulate, up_sweep, up_step, down_sweep, down_step,
}
use fluidloom.Adaptation.Scan.Sums.{prefix_sums, exclusive_scan-prefix_sums}
use fluidloom.Adaptation.Rebuild.{
  Mesh, merge_ids, valid_flags, compact, make_room, compact_and_rebuild, compact_and_rebuild_gpu,
}
use fluidloom.Adaptation.Rebuild.Compact.{ones}
use fluidloom.Adaptation.Rebuild.Survivors.{AllSplit}
use fluidloom.Adaptation.Rebuild.Agree.{Fits, AllFit, rebuild_gpu-Perm}
use fluidloom.Adaptation.Merge.{
  groups, Merged, no_merge, merge, find_sibling, sibling_index, coarsenable, siblings_from,
  set_group, mark_cell, mark_thread, mark_siblings,
}
use fluidloom.Adaptation.Merge.Locked.{TakesCoarse, merge-TakesCoarse}
use fluidloom.Adaptation.Engine.{Device, Adapted, adapt}
use fluidloom.Adaptation.Engine.Adapts.{Works, Changes, adapt-Changes}

-- A fluid cell of level 2 and a solid one.
abbrev wet : CellDescriptor
wet = cell (pos 1) (pos 2) (pos 3) 2 0 7

abbrev dry : CellDescriptor
dry = cell (pos 3) (pos 2) (pos 3) 2 1 7

abbrev two_cells : List CellDescriptor
two_cells = wet ∷ dry ∷ []

abbrev always : ℕ → Bool
always n = true

decode_3d-encode_3d_example :
    hilbert_decode_3d (hilbert_encode_3d (pos 5) (negsuc 0) (pos 6) 3) 3
    ≡ point (pos 5) (pos 7) (pos 6)
decode_3d-encode_3d_example = decode_3d-encode_3d (pos 5) (negsuc 0) (pos 6) 3 (omega arith)

encode_3d-interleaved_example : hilbert_encode_3d (pos 5) (pos 7) (pos 6) 3 ≡ interleaved 3 5 7 6
encode_3d-interleaved_example = encode_3d-interleaved (pos 5) (pos 7) (pos 6) 3 (omega arith)

encode_3d_run : hilbert_encode_3d (pos 5) (pos 7) (pos 6) 3 ≡ 499
unfolding hilbert_encode_3d encode_3d_loop rotation_table direction_table
encode_3d_run = refl

wet-IsCell : IsCell wet
wet-IsCell = record {
  x_fits = omega arith;
  y_fits = omega arith;
  z_fits = omega arith;
  level_fits = omega arith;
  state_fits = omega arith;
  material_fits = omega arith;
  unvisited = refl;
  unreserved = refl;
}

get_child-octet_example :
    (get_parent (get_child 5 wet) ≡ wet)
    × (is_sibling_of (get_child 5 wet) (get_child 3 wet) ≡ true)
    × (is_first_sibling (get_child 5 wet) ≡ false)
get_child-octet_example = get_child-octet wet 5 3 wet-IsCell (omega arith) (omega arith)

build_hash_table-Built_example :
    (s : HashState) × (build_hash_table always two_cells new_hash_state ≡ ok s) × Built two_cells s
build_hash_table-Built_example =
    build_hash_table-Built always two_cells new_hash_state (omega arith) (λ size. refl)

split-Octants_example :
    (r : SplitResult) × (split dry always two_cells (pos 1 ∷ pos 1 ∷ []) true ≡ ok r)
    × Octants two_cells (pos 1 ∷ pos 1 ∷ []) r
split-Octants_example =
    split-Octants dry always two_cells (pos 1 ∷ pos 1 ∷ []) true (λ k. refl) refl (omega arith)

exclusive_scan-prefix_sums_example :
    exclusive_scan (1 ∷ 0 ∷ 1 ∷ 1 ∷ []) ≡ prefix_sums 0 (1 ∷ 0 ∷ 1 ∷ 1 ∷ [])
exclusive_scan-prefix_sums_example = exclusive_scan-prefix_sums (1 ∷ 0 ∷ 1 ∷ 1 ∷ []) (omega arith)

abbrev mesh : Mesh ℕ
mesh = record {
  cells = two_cells;
  flags = pos 1 ∷ pos 0 ∷ [];
  has_fields = true;
  rows = (5 ∷ []) ∷ (6 ∷ []) ∷ [];
  capacity = 100;
}

abbrev one_split : SplitResult
one_split = split_of dry always two_cells (scratch two_cells (pos 1 ∷ pos 0 ∷ []))

one_split-Splits : Splits dry mesh.cells mesh.flags one_split
unfolding generate_children block_starts total_children split_count split_indices children_of splits
    scratch write_from can_split
one_split-Splits = record {
  children_made = refl;
  parents_counted = refl;
  children_counted = refl;
  mapped = refl;
  listed = refl;
}

wet-Fits : Fits wet
wet-Fits = record {
  x_fits = omega arith;
  y_fits = omega arith;
  z_fits = omega arith;
  level_fits = omega arith;
  state_fits = omega arith;
  material_fits = omega arith;
  unvisited = refl;
  unreserved = refl;
}

dry-Fits : Fits dry
dry-Fits = record {
  x_fits = omega arith;
  y_fits = omega arith;
  z_fits = omega arith;
  level_fits = omega arith;
  state_fits = omega arith;
  material_fits = omega arith;
  unvisited = refl;
  unreserved = refl;
}

mesh-AllFit : AllFit mesh.cells
unfolding AllFit
mesh-AllFit = (wet-Fits, (dry-Fits, tt))

mesh-AllSplit : AllSplit mesh.cells mesh.flags
unfolding AllSplit can_split
mesh-AllSplit = (λ h. refl, (λ h. absurd (cc), tt))

mesh_fits :
    ones (valid_flags mesh.flags (merge_ids [] (0xffff_ffff ∷ 0xffff_ffff ∷ [])))
      + length one_split.children
      + 0
    ≤ 100
unfolding ones valid_flags merge_ids scratch can_split generate_children block_starts total_children
    write_from
mesh_fits = omega arith

rebuild_gpu-Perm_example :
    Permᴰ
      (compact_and_rebuild 0 1 dry (λ n. n + n) (λ lt is. is) one_split no_merge mesh).cells
      (compact_and_rebuild_gpu dry [] (pos 0) (λ n. n + n) one_split no_merge mesh).cells
rebuild_gpu-Perm_example =
    rebuild_gpu-Perm 0 1 dry [] (pos 0) (λ n. n + n) (λ lt is. is) one_split no_merge mesh
      (λ lt is. Permᴰ.refl is) one_split-Splits mesh-AllFit mesh-AllSplit refl (omega arith)
      (omega arith) mesh_fits

abbrev upto : ℕ → List ℕ
upto zero = []
upto (suc n) = n ∷ upto n

length-upto : (n : ℕ) → length (upto n) ≡ n
length-upto zero = refl
length-upto (suc n) = omega (arith, length-upto n)

upto-lt : (n k : ℕ) → In k (upto n) → k < n
upto-lt zero k m = absurd m
upto-lt (suc n) k (inl e) = omega (arith, e)
upto-lt (suc n) k (inr m) = omega (arith, upto-lt n k m)

In-upto : (n k : ℕ) → k < n → In k (upto n)
In-upto zero k lt = absurd (omega arith)
In-upto (suc n) k lt = ground (arith, In-upto n k)

merge-TakesCoarse_example :
    (r : Merged ℕ) × (merge ◌+◌
        (λ x. x)
        0
        1
        false
        dry
        always
        (upto 2)
        (upto 2)
        always
        two_cells
        (negsuc 0 ∷ negsuc 0 ∷ [])
        true
        ((5 ∷ []) ∷ (6 ∷ []) ∷ [])
        new_hash_state
      ≡ ok r)
    × TakesCoarse two_cells (negsuc 0 ∷ negsuc 0 ∷ []) r
    × (length r.result.parents ≤ 2)
merge-TakesCoarse_example =
    merge-TakesCoarse ◌+◌ (λ x. x) 0 1 false dry always (upto 2) (upto 2) always two_cells
      (negsuc 0 ∷ negsuc 0 ∷ []) true ((5 ∷ []) ∷ (6 ∷ []) ∷ []) new_hash_state (λ bytes. refl)
      (λ k. refl) (omega arith) (upto-lt 2) (In-upto 2) refl

abbrev device : Device ℕ
device = record {
  allocates = always;
  balance_launches = always;
  split_calls = always;
  merge_calls = always;
  order = upto;
  junk_ids = upto;
  junk = dry;
  junk_row = [];
  junk_flag = pos 0;
  plus = ◌+◌;
  eighth = λ x. x;
  zero_field = 0;
  num_field_components = 1;
  growth = λ n. n + n;
  volume_weighted = false;
  enforce_2_1_balance = true;
  max_balance_iterations = 10;
}

device-Works : Works device
device-Works = record {
  allocates = λ bytes. refl;
  balances = λ k. refl;
  splits = λ k. refl;
  merges = λ k. refl;
  threads = length-upto;
  inside = upto-lt;
  each = In-upto;
  places = length-upto;
}

abbrev start : Adapted ℕ
start = record {
  mesh = mesh;
  tables = record { balance_table = new_hash_state; merge_table = new_hash_state };
}

adapt-Changes_example : (r : Adapted ℕ) × (adapt device start ≡ ok r) × Changes device start r
adapt-Changes_example =
    adapt-Changes device device-Works start refl (omega arith) (omega arith) (omega arith)

-- Eight siblings in a table of eight slots.
abbrev octet : List CellDescriptor
octet =
    cell (pos 0) (pos 0) (pos 0) 2 0 0
    ∷ cell (pos 1) (pos 0) (pos 0) 2 0 0
    ∷ cell (pos 0) (pos 1) (pos 0) 2 0 0
    ∷ cell (pos 1) (pos 1) (pos 0) 2 0 0
    ∷ cell (pos 0) (pos 0) (pos 1) 2 0 0
    ∷ cell (pos 1) (pos 0) (pos 1) 2 0 0
    ∷ cell (pos 0) (pos 1) (pos 1) 2 0 0
    ∷ cell (pos 1) (pos 1) (pos 1) 2 0 0
    ∷ []

abbrev eight : List ℕ
eight = 0 ∷ 1 ∷ 2 ∷ 3 ∷ 4 ∷ 5 ∷ 6 ∷ 7 ∷ []

abbrev all_coarse : List ℤ
all_coarse =
    negsuc 0 ∷ negsuc 0 ∷ negsuc 0 ∷ negsuc 0 ∷ negsuc 0 ∷ negsuc 0 ∷ negsuc 0 ∷ negsuc 0 ∷ []

-- The first sibling's thread last: the group stays whole.
group_whole :
    mark_siblings eight octet all_coarse (upto 8) (groups eight 0)
    ≡ groups (0 ∷ 0 ∷ 0 ∷ 0 ∷ 0 ∷ 0 ∷ 0 ∷ 0 ∷ []) 1
unfolding mark_siblings mark_thread mark_cell siblings_from set_group coarsenable find_sibling
    sibling_index is_first_sibling hilbert_encode_3d encode_3d_loop rotation_table direction_table
group_whole = refl

-- The first sibling's thread first: the later threads take their cells out of the group.
group_torn :
    mark_siblings eight octet all_coarse eight (groups eight 0)
    ≡ groups
        (0 ∷ 0xffff_ffff ∷ 0xffff_ffff ∷ 0xffff_ffff ∷ 0xffff_ffff ∷ 0xffff_ffff ∷ 0xffff_ffff
          ∷ 0xffff_ffff ∷ [])
        1
unfolding mark_siblings mark_thread mark_cell siblings_from set_group coarsenable find_sibling
    sibling_index is_first_sibling hilbert_encode_3d encode_3d_loop rotation_table direction_table
group_torn = refl

-- A solid flagged cell is lost on the device.
abbrev locked_mesh : Mesh ℕ
locked_mesh = record mesh { flags = pos 0 ∷ pos 1 ∷ [] }

abbrev locked_split : SplitResult
locked_split = split_of dry always two_cells (scratch two_cells (pos 0 ∷ pos 1 ∷ []))

locked_lost :
    (compact_and_rebuild_gpu dry [] (pos 0) (λ n. n) locked_split no_merge locked_mesh).cells
    ≡ wet ∷ []
unfolding compact_and_rebuild_gpu make_room exclusive_scan total_sum scan_local tabulate up_sweep
    up_step down_sweep down_step valid_flags merge_ids compact write_from scratch can_split
    generate_children block_starts total_children
locked_lost = refl
