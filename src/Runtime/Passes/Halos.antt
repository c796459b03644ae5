-- ===== src/Runtime/Passes/Halos.antt =====
-- What `insertHaloExchanges` leaves of a list, and the halo nodes in front of the kernels.
use fluidloom.Prelude.{
  ℕ, ◌≡◌, refl, ◌∙◌, sym, inl, inr, arith, List, [], ◌∷◌, Option, some, true, false, Bool-cases,
  ltb, ◌==◌,
}
use fluidloom.Runtime.Node.{halo_exchange}
use fluidloom.Runtime.Passes.{Store, needs_halo, add_halo, insert_halo_exchanges}
use fluidloom.Runtime.Passes.Inserted.{keep_below, Known, erased_node}
use fluidloom.Runtime.Passes.Served.{
  Kept-refl, Kept-trans, Guarded, InFront-behind, Haloed, add_halo-Kept, add_halo-Serves,
  Serves-Kept, Serves, needs_halo_iff, needs_halo-Kept, exchange_needs_none,
}

module _ (before : Option ℕ) (p : ℕ) (ps : List ℕ) (st : Store) (known : Known (p ∷ ps) st.next)
    (rest : List ℕ) (st' : Store) where
  without_halo :
      needs_halo (st.heap.node p) ≡ false
      → Haloed (some p) ps st rest st'
      → Haloed before (p ∷ ps) st (p ∷ rest) st'
  without_halo none_needed i =
      let here = i.kept p (known p (inl refl)) in
      record {
        grows = i.grows;
        kept = i.kept;
        erased = λ m le k. erased_node p ps rest m k (i.erased m le (λ q mem. k q (inr mem)));
        added = λ q mem le. elim mem [
          | inl e ↦ absurd (omega (arith, e, known p (inl refl)))
          | inr later ↦
              let x = i.added q later le in
              record {
                served = x.served;
                listed = inr x.listed;
                needed = x.needed;
                serves = x.serves;
                in_front = InFront-behind q x.served p rest x.in_front;
              }
        ];
        guarded =
            unfold Guarded in
            (
              (λ needed.
                  let same = needs_halo-Kept (st.heap.node p) (st'.heap.node p) here in
                  absurd (cc ((needs_halo_iff (st'.heap.node p)).1 needed, same, none_needed))),
              i.guarded,
            );
      }

  with_halo :
      needs_halo (st.heap.node p) ≡ true
      → Haloed (some p) ps (add_halo p st) rest st'
      → Haloed before (p ∷ ps) st (st.next ∷ p ∷ rest) st'
  with_halo wanted i =
      let lt = known p (inl refl) in
      let st1 = add_halo p st in
      let serves = add_halo-Serves p st lt in
      let now : Serves st'.heap st.next p =
        Serves-Kept st1.heap st'.heap st.next p (i.kept st.next (omega arith))
          (i.kept p (omega arith)) serves in
      let kind : (st'.heap.node st.next).node_type ≡ halo_exchange =
        (i.kept st.next (omega arith)).node_type ∙ serves.exchanges in
      record {
        grows = omega (arith, i.grows);
        kept = λ a la. Kept-trans (add_halo-Kept p st lt a la) (i.kept a (omega arith));
        erased = λ m le k.
            let above : ltb st.next m ≡ false = ground arith in
            unfold keep_below in
            rw above
              (erased_node p ps rest m k (i.erased m (omega arith) (λ q mem. k q (inr mem))));
        added = λ q mem le. elim (Bool-cases (q == st.next)) [
          | inl e ↦
              let same : q ≡ st.next = ground arith in
              record {
                served = p;
                listed = inl refl;
                needed = (needs_halo_iff (st.heap.node p)).0 wanted;
                serves = rw same now;
                in_front = inl (sym same, refl);
              }
          | inr apart ↦ elim mem [
            | inl e ↦ absurd (ground (arith, e))
            | inr later ↦ elim later [
              | inl e ↦ absurd (omega (arith, e))
              | inr deep ↦
                  let x = i.added q deep (ground arith) in
                  let before_it = known x.served (inr x.listed) in
                  let alike = add_halo-Kept p st lt x.served before_it in
                  record {
                    served = x.served;
                    listed = inr x.listed;
                    needed = (rw alike.halo_depth at x.needed.0, sym alike.node_type ∙ x.needed.1);
                    serves = x.serves;
                    in_front =
                        InFront-behind q x.served st.next (p ∷ rest)
                          (InFront-behind q x.served p rest x.in_front);
                  }
            ]
          ]
        ];
        guarded =
            unfold Guarded in
            (
              (λ needed. absurd (
                  cc (
                    (needs_halo_iff (st'.heap.node st.next)).1 needed,
                    exchange_needs_none (st'.heap.node st.next) kind,
                  ))),
              ((λ needed. (st.next, refl, now)), i.guarded),
            );
      }

-- In a list of known nodes, every kernel with a halo gets a halo exchange of the fields that it reads
-- directly in front of it, with an edge between them. Every node that is added is the exchange of a
-- kernel of the list with a halo, and stands directly in front of it. Without the added nodes the list
-- is as before, its nodes but for their predecessors too.
pub insert_halo_exchanges-Haloed :
    (before : Option ℕ) (ps : List ℕ) (st : Store)
    → Known ps st.next
    → let r = insert_halo_exchanges ps st in Haloed before ps st r.0 r.1
unfolding insert_halo_exchanges
insert_halo_exchanges-Haloed before [] st known = record {
  grows = omega arith;
  kept = λ p lt. Kept-refl (st.heap.node p);
  erased = λ m le k. unfold keep_below in refl;
  added = λ q m le. absurd m;
  guarded = unfold Guarded in tt;
}
insert_halo_exchanges-Haloed before (p ∷ ps) st known =
    elim (Bool-cases (needs_halo (st.heap.node p))) [
      | inl needed ↦
          let st1 = add_halo p st in
          let r = insert_halo_exchanges ps st1 in
          simp (needed, insert_halo_exchanges)
            (with_halo before p ps st known r.0 r.1 needed (
              insert_halo_exchanges-Haloed (some p) ps st1 (λ q m. omega (arith, known q (inr m)))))
      | inr idle ↦
          let r = insert_halo_exchanges ps st in
          simp (idle, insert_halo_exchanges)
            (without_halo before p ps st known r.0 r.1 idle
              (insert_halo_exchanges-Haloed (some p) ps st (λ q m. known q (inr m))))
    ]
