-- ===== src/Runtime/Passes/Served.antt =====
-- A halo node that serves a kernel, and what adding one does to the heap.
use fluidloom.Prelude.{
  ℕ, ◌<◌, ◌≤◌, ◌≡◌, ◌≢◌, ◌↔◌, refl, sym, ap, subst, ◌∙◌, ◌⊎◌, inl, inr, arith, List, [], ◌∷◌,
  Option, some, Bool, true, false, Bool-cases, In, In-append, ◌&&◌, ltb, ◌==◌,
}
use fluidloom.Runtime.Node.{
  NodeType, kernel, halo_exchange, barrier, adapt_mesh, fused_kernel, ExecutionNode, Heap,
  add_predecessor, add_successor,
}
use fluidloom.Runtime.Passes.{Store, halo_node, is_kernel, needs_halo, add_halo}
use fluidloom.Runtime.Passes.Inserted.{keep_below, Known}

-- A node that may have got more predecessors.
pub record Kept (n n' : ExecutionNode) : Type 0 where
  pub node_id : n'.node_id ≡ n.node_id
  pub node_name : n'.node_name ≡ n.node_name
  pub read_fields : n'.read_fields ≡ n.read_fields
  pub write_fields : n'.write_fields ≡ n.write_fields
  pub amr_level : n'.amr_level ≡ n.amr_level
  pub halo_depth : n'.halo_depth ≡ n.halo_depth
  pub node_type : n'.node_type ≡ n.node_type
  pub successors : n'.successors ≡ n.successors
  pub predecessors : (q : ℕ) → In q n.predecessors → In q n'.predecessors

pub Kept-refl : (n : ExecutionNode) → Kept n n
Kept-refl n = record {
  node_id = refl;
  node_name = refl;
  read_fields = refl;
  write_fields = refl;
  amr_level = refl;
  halo_depth = refl;
  node_type = refl;
  successors = refl;
  predecessors = λ q m. m;
}

pub Kept-trans : {a b c : ExecutionNode} → Kept a b → Kept b c → Kept a c
Kept-trans k l = record {
  node_id = l.node_id ∙ k.node_id;
  node_name = l.node_name ∙ k.node_name;
  read_fields = l.read_fields ∙ k.read_fields;
  write_fields = l.write_fields ∙ k.write_fields;
  amr_level = l.amr_level ∙ k.amr_level;
  halo_depth = l.halo_depth ∙ k.halo_depth;
  node_type = l.node_type ∙ k.node_type;
  successors = l.successors ∙ k.successors;
  predecessors = λ q m. l.predecessors q (k.predecessors q m);
}

Kept-add_predecessor : (q : ℕ) (n : ExecutionNode) → Kept n (add_predecessor q n)
Kept-add_predecessor q n = record {
  node_id = refl;
  node_name = refl;
  read_fields = refl;
  write_fields = refl;
  amr_level = refl;
  halo_depth = refl;
  node_type = refl;
  successors = refl;
  predecessors = λ r m. (In-append r n.predecessors (q ∷ [])).1 (inl m);
}

-- `q` exchanges what `p` reads, and runs before it.
pub record Serves (h : Heap) (q p : ℕ) : Type 0 where
  pub exchanges : (h.node q).node_type ≡ halo_exchange
  pub reads : (h.node q).read_fields ≡ (h.node p).read_fields
  pub writes : (h.node q).write_fields ≡ (h.node p).read_fields
  pub successor : (h.node q).successors ≡ p ∷ []
  pub predecessor : In q (h.node p).predecessors

-- A kernel with a halo.
abbrev pub WantsHalo : ExecutionNode → Type 0
WantsHalo n = (0 < n.halo_depth) × (n.node_type ≡ kernel)

is_kernel-kernel : (t : NodeType) → is_kernel t ≡ true → t ≡ kernel
is_kernel-kernel kernel e = refl
is_kernel-kernel halo_exchange e = absurd (cc)
is_kernel-kernel barrier e = absurd (cc)
is_kernel-kernel adapt_mesh e = absurd (cc)
is_kernel-kernel fused_kernel e = absurd (cc)

pub needs_halo_iff : (n : ExecutionNode) → (needs_halo n ≡ true) ↔ WantsHalo n
unfolding needs_halo
needs_halo_iff n = (
  (λ h. (ground (arith, h), is_kernel-kernel n.node_type (ground (arith, h)))),
  (λ (deep, is).
      let positive : ltb 0 n.halo_depth ≡ true = ground (arith, deep) in rw (positive, is) refl),
)

-- Every kernel with a halo stands directly behind a node that serves it.
unfoldable pub Guarded : Heap → Option ℕ → List ℕ → Type 0
Guarded h before [] = Unit
Guarded h before (p ∷ ps) =
    (WantsHalo (h.node p) → (q : ℕ) × (before ≡ some q) × Serves h q p) × Guarded h (some p) ps

-- `q` stands directly in front of `p`.
abbrev pub InFront : ℕ → ℕ → List ℕ → Type 0
InFront q p [] = ⊥
InFront q p (a ∷ []) = ⊥
InFront q p (a ∷ b ∷ rest) = ((a ≡ q) × (b ≡ p)) ⊎ InFront q p (b ∷ rest)

pub InFront-behind : (q p a : ℕ) (ps : List ℕ) → InFront q p ps → InFront q p (a ∷ ps)
InFront-behind q p a [] f = absurd f
InFront-behind q p a (b ∷ rest) f = inr f

-- `q` is the exchange of a kernel of the list that needs one, and stands directly in front of it.
pub record Exchange (q : ℕ) (ps : List ℕ) (st : Store) (result : List ℕ) (st' : Store)
    : Type 0 where
  pub served : ℕ
  pub listed : In served ps
  pub needed : WantsHalo (st.heap.node served)
  pub serves : Serves st'.heap q served
  pub in_front : InFront q served result

pub record Haloed (before : Option ℕ) (ps : List ℕ) (st : Store) (result : List ℕ) (st' : Store)
    : Type 0 where
  pub grows : st.next ≤ st'.next
  pub kept : (p : ℕ) → p < st.next → Kept (st.heap.node p) (st'.heap.node p)
  pub erased : (m : ℕ) → m ≤ st.next → Known ps m → keep_below m result ≡ ps
  pub added : (q : ℕ) → In q result → st.next ≤ q → Exchange q ps st result st'
  pub guarded : Guarded st'.heap before result

module _ (p : ℕ) (st : Store) (lt : p < st.next) where
  abbrev st1 : Store
  st1 = add_halo p st

  halo_here : st1.heap.node st.next ≡ add_successor p (halo_node (st.heap.node p))
  halo_here =
      let same : (st.next == st.next) ≡ true = ground arith in
      let apart : (p == st.next) ≡ false = ground arith in rw (apart, same) refl

  halo_kernel : st1.heap.node p ≡ add_predecessor st.next (st.heap.node p)
  halo_kernel =
      let same : (p == p) ≡ true = ground arith in
      let apart : (st.next == p) ≡ false = ground arith in rw (same, apart) refl

  halo_other : (a : ℕ) → a < st.next → p ≢ a → st1.heap.node a ≡ st.heap.node a
  halo_other a la ne =
      let apart : (p == a) ≡ false = ground (arith, ne) in
      let apart' : (st.next == a) ≡ false = ground arith in rw (apart, apart') refl

  pub add_halo-Kept : (a : ℕ) → a < st.next → Kept (st.heap.node a) (st1.heap.node a)
  add_halo-Kept a la = elim (Bool-cases (p == a)) [
    | inl e ↦
        let same : p ≡ a = ground (arith, e) in
        subst (λ (x : ℕ). Kept (st.heap.node x) (st1.heap.node x)) same
          (subst (Kept (st.heap.node p)) (sym halo_kernel)
            (Kept-add_predecessor st.next (st.heap.node p)))
    | inr e ↦
        subst (Kept (st.heap.node a)) (sym (halo_other a la (λ same. ground (arith, e, same))))
          (Kept-refl (st.heap.node a))
  ]

  pub add_halo-Serves : Serves st1.heap st.next p
  add_halo-Serves = record {
    exchanges = ap (λ (n : ExecutionNode). n.node_type) halo_here;
    reads =
        ap (λ (n : ExecutionNode). n.read_fields) halo_here
        ∙ sym (ap (λ (n : ExecutionNode). n.read_fields) halo_kernel);
    writes =
        ap (λ (n : ExecutionNode). n.write_fields) halo_here
        ∙ sym (ap (λ (n : ExecutionNode). n.read_fields) halo_kernel);
    successor = ap (λ (n : ExecutionNode). n.successors) halo_here;
    predecessor =
        subst (λ (n : ExecutionNode). In st.next n.predecessors) (sym halo_kernel)
          ((In-append st.next (st.heap.node p).predecessors (st.next ∷ [])).1 (inr (inl refl)));
  }

pub Serves-Kept :
    (h h' : Heap) (q p : ℕ)
    → Kept (h.node q) (h'.node q)
    → Kept (h.node p) (h'.node p)
    → Serves h q p
    → Serves h' q p
Serves-Kept h h' q p kq kp s = record {
  exchanges = kq.node_type ∙ s.exchanges;
  reads = kq.read_fields ∙ s.reads ∙ sym kp.read_fields;
  writes = kq.write_fields ∙ s.writes ∙ sym kp.read_fields;
  successor = kq.successors ∙ s.successor;
  predecessor = kp.predecessors q s.predecessor;
}

pub needs_halo-Kept : (n n' : ExecutionNode) → Kept n n' → needs_halo n' ≡ needs_halo n
unfolding needs_halo
needs_halo-Kept n n' k = rw (k.halo_depth, k.node_type) refl

and_false : (b : Bool) → (b && false) ≡ false
and_false true = refl
and_false false = refl

pub exchange_needs_none : (n : ExecutionNode) → n.node_type ≡ halo_exchange → needs_halo n ≡ false
unfolding needs_halo
exchange_needs_none n e = rw e (and_false (ltb 0 n.halo_depth))
