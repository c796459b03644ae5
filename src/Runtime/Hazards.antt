-- ===== src/Runtime/Hazards.antt =====
-- `HazardAnalyzer` (include/fluidloom/runtime/dependency/HazardAnalyzer.h,
-- src/runtime/dependency/HazardAnalyzer.cpp). `analyzeNodes` reads the nodes through their
-- pointers; the pairs of loops of the three field detectors are one pair of functions here, over
-- the list that is read of each node. The version tracker is held and not used by the source.
pub mod Fields
pub mod Levels
pub mod Exact
pub mod Enforce
use fluidloom.Prelude.{
  ℕ, zero, suc, Bool, true, false, List, [], ◌∷◌, ◌++◌, map, Option, none, some, String, ℤ, pos,
  ltb_ℤ, eqb_ℤ, get_elem?, if◌then◌else◌,
}
use fluidloom.Runtime.Node.{ExecutionNode, Heap, has_name, modify, add_successor, add_predecessor}

pub data HazardType : Type 0 where
  raw waw war level_barrier : HazardType

pub record Hazard : Type 0 where
  pub from_node_idx : ℕ
  pub to_node_idx : ℕ
  pub field_name : String
  pub type : HazardType

abbrev pub hazard : ℕ → ℕ → String → HazardType → Hazard
hazard i j field t = record { from_node_idx = i; to_node_idx = j; field_name = field; type = t }

-- The innermost loop: the fields of the first node that the second one's list holds.
unfoldable pub match_fields :
    HazardType → ℕ → ℕ → List String → List String → List Hazard → List Hazard
match_fields t i j [] others acc = acc
match_fields t i j (field ∷ fields) others acc =
    match_fields t i j fields others
      (if has_name field others then acc ++ hazard i j field t ∷ [] else acc)

-- The loop over the later nodes, from index `j` on.
unfoldable pub match_later :
    HazardType
    → (ExecutionNode → List String)
    → ℕ
    → List String
    → ℕ
    → List ExecutionNode
    → List Hazard
    → List Hazard
match_later t second i fields j [] acc = acc
match_later t second i fields j (node_b ∷ rest) acc =
    match_later t second i fields (suc j) rest (match_fields t i j fields (second node_b) acc)

unfoldable pub detect :
    HazardType
    → (ExecutionNode → List String)
    → (ExecutionNode → List String)
    → ℕ
    → List ExecutionNode
    → List Hazard
    → List Hazard
detect t first second i [] acc = acc
detect t first second i (node_a ∷ rest) acc =
    detect t first second (suc i) rest (match_later t second i (first node_a) (suc i) rest acc)

unfoldable pub detect_raw : List ExecutionNode → List Hazard → List Hazard
detect_raw nodes hazards = detect raw (λ n. n.write_fields) (λ n. n.read_fields) 0 nodes hazards

unfoldable pub detect_waw : List ExecutionNode → List Hazard → List Hazard
detect_waw nodes hazards = detect waw (λ n. n.write_fields) (λ n. n.write_fields) 0 nodes hazards

unfoldable pub detect_war : List ExecutionNode → List Hazard → List Hazard
detect_war nodes hazards = detect war (λ n. n.read_fields) (λ n. n.write_fields) 0 nodes hazards

abbrev pub negative : ℤ → Bool
negative level = ltb_ℤ level (pos 0)

unfoldable pub barriers_later : ℕ → ℤ → ℕ → List ExecutionNode → List Hazard → List Hazard
barriers_later i level_a j [] acc = acc
barriers_later i level_a j (node_b ∷ rest) acc =
    let level_b = node_b.amr_level in
    barriers_later i level_a (suc j) rest (
      if negative level_b
      then acc
      else if eqb_ℤ level_a level_b
      then acc
      else acc ++ hazard i j "" level_barrier ∷ [])

unfoldable pub barriers_from : ℕ → List ExecutionNode → List Hazard → List Hazard
barriers_from i [] acc = acc
barriers_from i (node_a ∷ rest) acc =
    let level_a = node_a.amr_level in
    barriers_from (suc i) rest
      (if negative level_a then acc else barriers_later i level_a (suc i) rest acc)

unfoldable pub detect_level_barriers : List ExecutionNode → List Hazard → List Hazard
detect_level_barriers nodes hazards = barriers_from 0 nodes hazards

unfoldable pub analyze : List ExecutionNode → List Hazard
analyze nodes =
    detect_level_barriers nodes (detect_war nodes (detect_waw nodes (detect_raw nodes [])))

unfoldable pub analyze_nodes : Heap → List ℕ → List Hazard
analyze_nodes h nodes = analyze (map h.node nodes)

-- One turn of the loop of `enforceHazards`; `none` is an index outside the vector.
unfoldable pub enforce : Heap → List ℕ → Hazard → Option Heap
enforce h nodes z = elim (get_elem? nodes z.from_node_idx) [
  | none ↦ none
  | some from_node ↦ elim (get_elem? nodes z.to_node_idx) [
    | none ↦ none
    | some to_node ↦
        some
          (modify to_node (add_predecessor from_node) (modify from_node (add_successor to_node) h))
  ]
]

unfoldable pub enforce_hazards : Heap → List ℕ → List Hazard → Option Heap
enforce_hazards h nodes [] = some h
enforce_hazards h nodes (z ∷ rest) = elim (enforce h nodes z) [
  | none ↦ none
  | some h' ↦ enforce_hazards h' nodes rest
]
