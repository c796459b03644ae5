-- ===== src/Runtime/Hazards/Levels.antt =====
-- What the detector of level barriers adds to the hazards, in both directions.
use fluidloom.Prelude.{
  ℕ, zero, suc, ◌+◌, ◌<◌, ◌≡◌, refl, sym, subst, ◌⊎◌, inl, inr, Bool, false, List, [], ◌∷◌, ◌++◌,
  arith, get_elem?, some, String, ℤ, eqb_ℤ, if◌then◌else◌, Bool-cases, In,
}
use fluidloom.Runtime.Node.{ExecutionNode}
use fluidloom.Runtime.Hazards.{
  HazardType, level_barrier, Hazard, hazard, negative, barriers_later, barriers_from,
}
use fluidloom.Runtime.Hazards.Fields.{In-snoc}

module _ (i j : ℕ) (f : String) (t : HazardType) where
  abbrev z : Hazard
  z = hazard i j f t

  -- The levels of both nodes are set and differ.
  abbrev pub Apart : ExecutionNode → ExecutionNode → Type 0
  Apart a b =
      (negative a.amr_level ≡ false)
      × (negative b.amr_level ≡ false)
      × (eqb_ℤ a.amr_level b.amr_level ≡ false)

  abbrev add : Bool → Bool → ℕ → ℕ → List Hazard → List Hazard
  add skip same i' j' acc =
      if skip then acc else if same then acc else acc ++ hazard i' j' "" level_barrier ∷ []

  add_sound :
      (skip same : Bool) (i' j' : ℕ) (acc : List Hazard)
      → In z (add skip same i' j' acc)
      → In z acc
        ⊎ (i' ≡ i) × (j' ≡ j) × (f ≡ "") × (t ≡ level_barrier) × (skip ≡ false) × (same ≡ false)
  add_sound skip same i' j' acc m = ground (arith, In-snoc i j i' j' f "" t level_barrier acc)

  add_keeps :
      (skip same : Bool) (i' j' : ℕ) (acc : List Hazard) → In z acc → In z (add skip same i' j' acc)
  add_keeps skip same i' j' acc m = ground (arith, In-snoc i j i' j' f "" t level_barrier acc)

  later_keeps :
      (i' : ℕ) (level : ℤ) (j' : ℕ) (rest : List ExecutionNode) (acc : List Hazard)
      → In z acc
      → In z (barriers_later i' level j' rest acc)
  unfolding barriers_later
  later_keeps i' level j' [] acc m = m
  later_keeps i' level j' (b ∷ rest) acc m =
      later_keeps i' level (suc j') rest _
        (add_keeps (negative b.amr_level) (eqb_ℤ level b.amr_level) i' j' acc m)

  later_sound :
      (i' : ℕ) (level : ℤ) (j' : ℕ) (rest : List ExecutionNode) (acc : List Hazard)
      → In z (barriers_later i' level j' rest acc)
      → In z acc
        ⊎ (k : ℕ) × (b : ExecutionNode) × (j ≡ j' + k)
          × (get_elem? rest k ≡ some b)
          × (i' ≡ i)
          × (f ≡ "")
          × (t ≡ level_barrier)
          × (negative b.amr_level ≡ false)
          × (eqb_ℤ level b.amr_level ≡ false)
  unfolding barriers_later
  later_sound i' level j' [] acc m = inl m
  later_sound i' level j' (b ∷ rest) acc m = elim (later_sound i' level (suc j') rest _ m) [
    | inl before ↦
        elim (add_sound (negative b.amr_level) (eqb_ℤ level b.amr_level) i' j' acc before) [
          | inl old ↦ inl old
          | inr (ei, ej, ef, et, set, differ) ↦
              inr (0, b, omega arith, refl, ei, ef, et, set, differ)
        ]
    | inr (k, b', at, found, ei, ef, et, set, differ) ↦
        inr (suc k, b', omega arith, found, ei, ef, et, set, differ)
  ]

  pub barriers_sound :
      (i' : ℕ) (nodes : List ExecutionNode) (acc : List Hazard)
      → In z (barriers_from i' nodes acc)
      → In z acc
        ⊎ (k l : ℕ) × (a b : ExecutionNode) × (i ≡ i' + k)
          × (j ≡ i' + l)
          × (k < l)
          × (get_elem? nodes k ≡ some a)
          × (get_elem? nodes l ≡ some b)
          × (f ≡ "")
          × (t ≡ level_barrier)
          × (negative a.amr_level ≡ false)
          × (negative b.amr_level ≡ false)
          × (eqb_ℤ a.amr_level b.amr_level ≡ false)
  unfolding barriers_from
  barriers_sound i' [] acc m = inl m
  barriers_sound i' (a ∷ rest) acc m = elim (barriers_sound (suc i') rest _ m) [
    | inl before ↦ elim (Bool-cases (negative a.amr_level)) [
      | inl unset ↦ inl (rw unset at before)
      | inr set ↦ elim (later_sound i' a.amr_level (suc i') rest acc (rw set at before)) [
        | inl old ↦ inl old
        | inr (k, b, at, found, ei, ef, et, set', differ) ↦ inr (
          0,
          suc k,
          a,
          b,
          omega arith,
          omega arith,
          omega arith,
          refl,
          found,
          ef,
          et,
          set,
          set',
          differ,
        )
      ]
    ]
    | inr (k, l, a', b, ei, ej, lt, fa, fb, ef, et, sa, sb, differ) ↦
        inr (
          suc k,
          suc l,
          a',
          b,
          omega arith,
          omega arith,
          omega arith,
          fa,
          fb,
          ef,
          et,
          sa,
          sb,
          differ,
        )
  ]

  pub barriers_keeps :
      (i' : ℕ) (nodes : List ExecutionNode) (acc : List Hazard)
      → In z acc
      → In z (barriers_from i' nodes acc)
  unfolding barriers_from
  barriers_keeps i' [] acc m = m
  barriers_keeps i' (a ∷ rest) acc m = elim (Bool-cases (negative a.amr_level)) [
    | inl unset ↦ rw unset (barriers_keeps (suc i') rest acc m)
    | inr set ↦
        rw set (barriers_keeps (suc i') rest _ (later_keeps i' a.amr_level (suc i') rest acc m))
  ]

module _ (i j : ℕ) where
  abbrev barrier : Hazard
  barrier = hazard i j "" level_barrier

  later_complete :
      (level : ℤ) (j' k : ℕ) (rest : List ExecutionNode) (b : ExecutionNode) (acc : List Hazard)
      → j ≡ j' + k
      → get_elem? rest k ≡ some b
      → negative b.amr_level ≡ false
      → eqb_ℤ level b.amr_level ≡ false
      → In barrier (barriers_later i level j' rest acc)
  unfolding barriers_later
  later_complete level j' k [] b acc at found set differ = cc
  later_complete level j' zero (b' ∷ rest) b acc at found set differ =
      let same : b' ≡ b = ground arith in
      later_keeps i j "" level_barrier i level (suc j') rest _ (
        rw (same, set, differ)
          ((In-snoc i j i j' "" "" level_barrier level_barrier acc).1
            (inr (refl, omega arith, refl, refl))))
  later_complete level j' (suc k) (b' ∷ rest) b acc at found set differ =
      later_complete level (suc j') k rest b _ (omega arith) found set differ

  pub barriers_complete :
      (i' k l : ℕ) (nodes : List ExecutionNode) (a b : ExecutionNode) (acc : List Hazard)
      → i ≡ i' + k
      → j ≡ i' + l
      → k < l
      → get_elem? nodes k ≡ some a
      → get_elem? nodes l ≡ some b
      → negative a.amr_level ≡ false
      → negative b.amr_level ≡ false
      → eqb_ℤ a.amr_level b.amr_level ≡ false
      → In barrier (barriers_from i' nodes acc)
  unfolding barriers_from
  barriers_complete i' k l [] a b acc ei ej lt fa fb sa sb differ = cc
  barriers_complete i' k zero (a' ∷ rest) a b acc ei ej lt fa fb sa sb differ = absurd (omega arith)
  barriers_complete i' zero (suc l) (a' ∷ rest) a b acc ei ej lt fa fb sa sb differ =
      let same : a' ≡ a = ground arith in
      let at : i' ≡ i = omega arith in
      barriers_keeps i j "" level_barrier (suc i') rest _ (
        rw (same, sa)
          (subst (λ x. In barrier (barriers_later x a.amr_level (suc i') rest acc)) (sym at)
            (later_complete a.amr_level (suc i') l rest b acc (omega arith) fb sb differ)))
  barriers_complete i' (suc k) (suc l) (a' ∷ rest) a b acc ei ej lt fa fb sa sb differ =
      barriers_complete (suc i') k l rest a b _ (omega arith) (omega arith) (omega arith) fa fb sa
        sb differ
