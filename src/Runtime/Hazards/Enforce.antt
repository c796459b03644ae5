-- ===== src/Runtime/Hazards/Enforce.antt =====
-- `enforceHazards` adds one edge for each hazard, and changes nothing else of any node.
use fluidloom.Prelude.{
  ℕ, ◌≡◌, refl, sym, ap, subst, ◌∙◌, ◌⊎◌, inl, inr, ◌↔◌, List, [], ◌∷◌, arith, get_elem?, some,
  Option-cases, In, In-append,
}
use fluidloom.Runtime.Node.{ExecutionNode, Heap, modify, add_successor, add_predecessor}
use fluidloom.Runtime.Hazards.{Hazard, enforce, enforce_hazards}

-- The hazard's nodes are `p` and `q`.
abbrev pub Joins : List ℕ → Hazard → ℕ → ℕ → Type 0
Joins nodes z p q =
    (get_elem? nodes z.from_node_idx ≡ some p) × (get_elem? nodes z.to_node_idx ≡ some q)

-- What a node's fields but the adjacency are.
abbrev pub SameNode : ExecutionNode → ExecutionNode → Type 0
SameNode m n =
    (m.node_id ≡ n.node_id)
    × (m.node_name ≡ n.node_name)
    × (m.read_fields ≡ n.read_fields)
    × (m.write_fields ≡ n.write_fields)
    × (m.amr_level ≡ n.amr_level)
    × (m.halo_depth ≡ n.halo_depth)
    × (m.node_type ≡ n.node_type)

pub record Enforced (nodes : List ℕ) (hazards : List Hazard) (h h' : Heap) : Type 0 where
  pub alive_kept : (p : ℕ) → h'.alive p ≡ h.alive p
  pub node_kept : (p : ℕ) → SameNode (h'.node p) (h.node p)
  pub successors :
      (p q : ℕ)
      → In q (h'.node p).successors
        ↔ (In q (h.node p).successors ⊎ (z : Hazard) × In z hazards × Joins nodes z p q)
  pub predecessors :
      (p q : ℕ)
      → In p (h'.node q).predecessors
        ↔ (In p (h.node q).predecessors ⊎ (z : Hazard) × In z hazards × Joins nodes z p q)

module _ (h : Heap) (a b : ℕ) where
  abbrev joined : Heap
  joined = modify b (add_predecessor a) (modify a (add_successor b) h)

  joined-successors :
      (p q : ℕ) → In q (joined.node p).successors ↔ (In q (h.node p).successors ⊎ (a ≡ p) × (b ≡ q))
  joined-successors p q = ground (arith, In-append q (h.node a).successors (b ∷ []))

  joined-predecessors :
      (p q : ℕ)
      → In p (joined.node q).predecessors ↔ (In p (h.node q).predecessors ⊎ (a ≡ p) × (b ≡ q))
  joined-predecessors p q = ground (arith, In-append p (h.node b).predecessors (a ∷ []))

  joined-SameNode : (p : ℕ) → SameNode (joined.node p) (h.node p)
  joined-SameNode p = ground arith

some_injective : {A : Type 0} {a b : A} → some a ≡ some b → a ≡ b
some_injective e = cc

-- The joined nodes are what the hazard's indices lead to.
Joins-of_eq :
    (nodes : List ℕ) (z : Hazard) (a b p q : ℕ)
    → Joins nodes z a b
    → a ≡ p
    → b ≡ q
    → Joins nodes z p q
Joins-of_eq nodes z a b p q (fa, fb) ea eb = (fa ∙ ap some ea, fb ∙ ap some eb)

eq_of_Joins :
    (nodes : List ℕ) (z : Hazard) (a b p q : ℕ)
    → Joins nodes z a b
    → Joins nodes z p q
    → (a ≡ p) × (b ≡ q)
eq_of_Joins nodes z a b p q (fa, fb) (fp, fq) =
    (some_injective (sym fa ∙ fp), some_injective (sym fb ∙ fq))

module _ (nodes : List ℕ) (z : Hazard) (rest : List Hazard) (a b p q : ℕ)
    (joins : Joins nodes z a b) where
  abbrev Edge : Type 0
  Edge = (y : Hazard) × In y (z ∷ rest) × Joins nodes y p q

  edge_cons : (((a ≡ p) × (b ≡ q)) ⊎ (y : Hazard) × In y rest × Joins nodes y p q) ↔ Edge
  edge_cons = (
    λ s. elim s [
      | inl (ea, eb) ↦ (z, inl refl, Joins-of_eq nodes z a b p q joins ea eb)
      | inr (y, m, j) ↦ (y, inr m, j)
    ],
    λ (y, m, j). elim m [
      | inl e ↦ inl (eq_of_Joins nodes z a b p q joins (subst (λ x. Joins nodes x p q) (sym e) j))
      | inr m' ↦ inr (y, m', j)
    ],
  )

SameNode-trans : (l m n : ExecutionNode) → SameNode l m → SameNode m n → SameNode l n
SameNode-trans l m n s t = ground arith

Enforced-cons :
    (nodes : List ℕ) (z : Hazard) (rest : List Hazard) (a b : ℕ) (h h' : Heap)
    → Joins nodes z a b
    → Enforced nodes rest (joined h a b) h'
    → Enforced nodes (z ∷ rest) h h'
Enforced-cons nodes z rest a b h h' joins r = record {
  alive_kept = λ p. r.alive_kept p;
  node_kept = λ p.
      SameNode-trans (h'.node p) ((joined h a b).node p) (h.node p) (r.node_kept p)
        (joined-SameNode h a b p);
  successors = λ p q.
      ground (
        arith,
        r.successors p q,
        joined-successors h a b p q,
        edge_cons nodes z rest a b p q joins,
      );
  predecessors = λ p q. ground (
    arith,
    r.predecessors p q,
    joined-predecessors h a b p q,
    edge_cons nodes z rest a b p q joins,
  );
}

-- Where enforcing the hazards stays inside the vector, the successors of a node are afterwards those
-- before and the targets of its hazards, its predecessors those before and the sources of its
-- hazards; its id, name, fields, level, halo depth and type and the live pointers are kept.
pub enforce_hazards-Enforced :
    (nodes : List ℕ) (hazards : List Hazard) (h h' : Heap)
    → enforce_hazards h nodes hazards ≡ some h'
    → Enforced nodes hazards h h'
unfolding enforce_hazards enforce
enforce_hazards-Enforced nodes [] h h' e = subst (Enforced nodes [] h) (some_injective e) (record {
  alive_kept = λ p. refl;
  node_kept = λ p. (refl, refl, refl, refl, refl, refl, refl);
  successors = λ p q. (inl, λ s. elim s [ inl m ↦ m | inr (y, m, j) ↦ absurd m ]);
  predecessors = λ p q. (inl, λ s. elim s [ inl m ↦ m | inr (y, m, j) ↦ absurd m ]);
})
enforce_hazards-Enforced nodes (z ∷ rest) h h' e =
    elim (Option-cases (get_elem? nodes z.from_node_idx)) [
      | inl ea ↦ absurd (cc (simp (ea, enforce, enforce_hazards) at e))
      | inr (a, ea) ↦ elim (Option-cases (get_elem? nodes z.to_node_idx)) [
        | inl eb ↦ absurd (cc (simp (ea, eb, enforce, enforce_hazards) at e))
        | inr (b, eb) ↦
            Enforced-cons nodes z rest a b h h' (ea, eb)
              (enforce_hazards-Enforced nodes rest (joined h a b) h'
                (simp (ea, eb, enforce, enforce_hazards) at e))
      ]
    ]

-- Where every hazard's indices lead to nodes, all edges are added.
pub enforce_hazards_returns :
    (nodes : List ℕ) (hazards : List Hazard) (h : Heap)
    → ((z : Hazard) → In z hazards → (p q : ℕ) × Joins nodes z p q)
    → (h' : Heap) × (enforce_hazards h nodes hazards ≡ some h')
unfolding enforce_hazards enforce
enforce_hazards_returns nodes [] h inside = (h, refl)
enforce_hazards_returns nodes (z ∷ rest) h inside =
    let (a, b, (ea, eb)) = inside z (inl refl) in
    let (h', e) = enforce_hazards_returns nodes rest (joined h a b) (λ y m. inside y (inr m)) in
    (h', simp (ea, eb, enforce, enforce_hazards) e)
