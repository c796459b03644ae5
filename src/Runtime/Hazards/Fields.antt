-- ===== src/Runtime/Hazards/Fields.antt =====
-- What the three field detectors add to the hazards, in both directions.
use text.Mathlib.TextEquality.{eq_iff}
use fluidloom.Prelude.{
  ℕ, zero, suc, ◌+◌, ◌<◌, ◌≡◌, refl, sym, subst, ◌⊎◌, inl, inr, ◌↔◌, true, List, [], ◌∷◌, ◌++◌,
  arith, get_elem?, some, String, if◌then◌else◌, In, In-append,
}
use fluidloom.Runtime.Node.{ExecutionNode, has_name}
use fluidloom.Runtime.Hazards.{HazardType, Hazard, hazard, match_fields, match_later, detect}

-- `i` and `j` stand for the two nodes of a report on them.
pub In-snoc :
    (i j i' j' : ℕ) (f f' : String) (t t' : HazardType) (acc : List Hazard)
    → In (hazard i j f t) (acc ++ hazard i' j' f' t' ∷ [])
      ↔ (In (hazard i j f t) acc ⊎ (i' ≡ i) × (j' ≡ j) × (f' ≡ f) × (t' ≡ t))
In-snoc i j i' j' f f' t t' acc =
    ground (arith, In-append (hazard i j f t) acc (hazard i' j' f' t' ∷ []))

module _ (i j : ℕ) (f : String) (t : HazardType) where
  abbrev z : Hazard
  z = hazard i j f t

  match_fields_iff :
      (t' : HazardType) (i' j' : ℕ) (fields others : List String) (acc : List Hazard)
      → In z (match_fields t' i' j' fields others acc) ↔ (
          In z acc
          ⊎ (i' ≡ i)
            × (j' ≡ j)
            × (t' ≡ t)
            × (has_name f fields ≡ true)
            × (has_name f others ≡ true))
  unfolding match_fields has_name
  match_fields_iff t' i' j' [] others acc = ground arith
  match_fields_iff t' i' j' (field ∷ fields) others acc = ground (
    arith,
    match_fields_iff t' i' j' fields others
        (if has_name field others then acc ++ hazard i' j' field t' ∷ [] else acc),
    In-snoc i j i' j' f field t t' acc,
    eq_iff field f,
  )

  -- A report on `i'` and a later node, the `k`-th of `rest`.
  abbrev OnLater :
      HazardType → (ExecutionNode → List String) → ℕ → List String → ℕ → List ExecutionNode → Type 0
  OnLater t' second i' fields j' rest =
      (k : ℕ) × (b : ExecutionNode) × (j ≡ j' + k)
      × (get_elem? rest k ≡ some b)
      × (i' ≡ i)
      × (t' ≡ t)
      × (has_name f fields ≡ true)
      × (has_name f (second b) ≡ true)

  match_later_sound :
      (t' : HazardType) (second : ExecutionNode → List String) (i' : ℕ) (fields : List String)
      (j' : ℕ) (rest : List ExecutionNode) (acc : List Hazard)
      → In z (match_later t' second i' fields j' rest acc)
      → In z acc ⊎ OnLater t' second i' fields j' rest
  unfolding match_later
  match_later_sound t' second i' fields j' [] acc m = inl m
  match_later_sound t' second i' fields j' (b ∷ rest) acc m =
      elim (match_later_sound t' second i' fields (suc j') rest
        (match_fields t' i' j' fields (second b) acc) m) [
          | inl before ↦ elim ((match_fields_iff t' i' j' fields (second b) acc).0 before) [
            | inl old ↦ inl old
            | inr (ei, ej, et, hf, hs) ↦ inr (0, b, omega arith, refl, ei, et, hf, hs)
          ]
          | inr (k, b', at, found, ei, et, hf, hs) ↦
              inr (suc k, b', omega arith, found, ei, et, hf, hs)
        ]

  match_later_keeps :
      (t' : HazardType) (second : ExecutionNode → List String) (i' : ℕ) (fields : List String)
      (j' : ℕ) (rest : List ExecutionNode) (acc : List Hazard)
      → In z acc
      → In z (match_later t' second i' fields j' rest acc)
  unfolding match_later
  match_later_keeps t' second i' fields j' [] acc m = m
  match_later_keeps t' second i' fields j' (b ∷ rest) acc m =
      match_later_keeps t' second i' fields (suc j') rest _
        ((match_fields_iff t' i' j' fields (second b) acc).1 (inl m))

  match_later_complete :
      (second : ExecutionNode → List String) (fields : List String) (j' k : ℕ)
      (rest : List ExecutionNode) (b : ExecutionNode) (acc : List Hazard)
      → j ≡ j' + k
      → get_elem? rest k ≡ some b
      → has_name f fields ≡ true
      → has_name f (second b) ≡ true
      → In z (match_later t second i fields j' rest acc)
  unfolding match_later
  match_later_complete second fields j' k [] b acc at found hf hs = cc
  match_later_complete second fields j' zero (b' ∷ rest) b acc at found hf hs =
      let same : b' ≡ b = ground arith in
      match_later_keeps t second i fields (suc j') rest _ (
        (match_fields_iff t i j' fields (second b') acc).1
          (inr (refl, omega arith, refl, hf, rw same hs)))
  match_later_complete second fields j' (suc k) (b' ∷ rest) b acc at found hf hs =
      match_later_complete second fields (suc j') k rest b _ (omega arith) found hf hs

  -- A report on two nodes of the list, the earlier one first.
  abbrev pub OnPair :
      HazardType
      → (ExecutionNode → List String)
      → (ExecutionNode → List String)
      → ℕ
      → List ExecutionNode
      → Type 0
  OnPair t' first second i' nodes =
      (k l : ℕ) × (a b : ExecutionNode) × (i ≡ i' + k)
      × (j ≡ i' + l)
      × (k < l)
      × (get_elem? nodes k ≡ some a)
      × (get_elem? nodes l ≡ some b)
      × (t' ≡ t)
      × (has_name f (first a) ≡ true)
      × (has_name f (second b) ≡ true)

  pub detect_sound :
      (t' : HazardType) (first second : ExecutionNode → List String) (i' : ℕ)
      (nodes : List ExecutionNode) (acc : List Hazard)
      → In z (detect t' first second i' nodes acc)
      → In z acc ⊎ OnPair t' first second i' nodes
  unfolding detect
  detect_sound t' first second i' [] acc m = inl m
  detect_sound t' first second i' (a ∷ rest) acc m =
      elim (detect_sound t' first second (suc i') rest _ m) [
        | inl before ↦ elim (match_later_sound t' second i' (first a) (suc i') rest acc before) [
          | inl old ↦ inl old
          | inr (k, b, at, found, ei, et, hf, hs) ↦
              inr (0, suc k, a, b, omega arith, omega arith, omega arith, refl, found, et, hf, hs)
        ]
        | inr (k, l, a', b, ei, ej, lt, fa, fb, et, hf, hs) ↦
            inr (suc k, suc l, a', b, omega arith, omega arith, omega arith, fa, fb, et, hf, hs)
      ]

  pub detect_keeps :
      (t' : HazardType) (first second : ExecutionNode → List String) (i' : ℕ)
      (nodes : List ExecutionNode) (acc : List Hazard)
      → In z acc
      → In z (detect t' first second i' nodes acc)
  unfolding detect
  detect_keeps t' first second i' [] acc m = m
  detect_keeps t' first second i' (a ∷ rest) acc m =
      detect_keeps t' first second (suc i') rest _
        (match_later_keeps t' second i' (first a) (suc i') rest acc m)

  pub detect_complete :
      (first second : ExecutionNode → List String) (i' k l : ℕ) (nodes : List ExecutionNode)
      (a b : ExecutionNode) (acc : List Hazard)
      → i ≡ i' + k
      → j ≡ i' + l
      → k < l
      → get_elem? nodes k ≡ some a
      → get_elem? nodes l ≡ some b
      → has_name f (first a) ≡ true
      → has_name f (second b) ≡ true
      → In z (detect t first second i' nodes acc)
  unfolding detect
  detect_complete first second i' k l [] a b acc ei ej lt fa fb hf hs = cc
  detect_complete first second i' k zero (a' ∷ rest) a b acc ei ej lt fa fb hf hs =
      absurd (omega arith)
  detect_complete first second i' zero (suc l) (a' ∷ rest) a b acc ei ej lt fa fb hf hs =
      let same : a' ≡ a = ground arith in
      let at : i' ≡ i = omega arith in
      detect_keeps t first second (suc i') rest _ (
        subst (λ x. In z (match_later t second x (first a') (suc i') rest acc)) (sym at)
          (match_later_complete second (first a') (suc i') l rest b acc (omega arith) fb
            (rw same hf) hs))
  detect_complete first second i' (suc k) (suc l) (a' ∷ rest) a b acc ei ej lt fa fb hf hs =
      detect_complete first second (suc i') k l rest a b _ (omega arith) (omega arith) (omega arith)
        fa fb hf hs
