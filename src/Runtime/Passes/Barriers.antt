-- ===== src/Runtime/Passes/Barriers.antt =====
-- What `insertLevelBarriers` leaves of a list and what it puts between the nodes.
use fluidloom.Prelude.{
  ℕ, ◌≡◌, refl, ◌∙◌, inl, inr, arith, List, [], ◌∷◌, Option, none, some, Bool, true, false,
  Bool-cases, not, ◌&&◌, ltb, ◌==◌, ℤ, pos, eqb_ℤ, eqb_ℤ_iff, ltb_ℤ,
}
use fluidloom.Runtime.Node.{ExecutionNode, Heap}
use fluidloom.Runtime.Passes.{
  Store, allocate, level_barrier_node, level_changes, barrier_loop, insert_level_barriers,
}
use fluidloom.Runtime.Passes.Inserted.{
  keep_below, Known, Levelled, is_barrier, Separated, Inserted, put_other, put_here, after_node,
  erased_node,
}

unchanged_level :
    (current level : ℤ)
    → ltb_ℤ current (pos 0) ≡ false
    → ltb_ℤ level (pos 0) ≡ false
    → level_changes current level ≡ false
    → level ≡ current
unfolding level_changes
unchanged_level current level hc hl same = elim (Bool-cases (eqb_ℤ level current)) [
  | inl e ↦ (eqb_ℤ_iff level current).0 e
  | inr e ↦ absurd (cc (rw (hc, hl, e) at same))
]

module _ (current : ℤ) (p : ℕ) (ps : List ℕ) (st : Store) (known : Known (p ∷ ps) st.next)
    (rest : List ℕ) (st' : Store) where
  abbrev level : ℤ
  level = (st.heap.node p).amr_level

  without_barrier :
      level ≡ current
      → Inserted (some current) ps st rest st'
      → Inserted (some current) (p ∷ ps) st (p ∷ rest) st'
  without_barrier same i =
      let here = i.kept p (known p (inl refl)) in
      record {
        grows = i.grows;
        kept = i.kept;
        erased = λ m le k. erased_node p ps rest m k (i.erased m le (λ q mem. k q (inr mem)));
        added = λ q mem le. elim mem [
          | inl e ↦ absurd (omega (arith, e, known p (inl refl)))
          | inr later ↦ i.added q later le
        ];
        separated =
            unfold Separated in
            (
              inr (rw here same),
              after_node st'.heap (st'.heap.node p) rest (rw here (rw same i.separated)),
            );
      }

  with_barrier :
      (b : ExecutionNode)
      → is_barrier b.node_type ≡ true
      → Inserted (some level) ps (allocate b st) rest st'
      → Inserted (some current) (p ∷ ps) st (st.next ∷ p ∷ rest) st'
  with_barrier b kind i =
      let lt = known p (inl refl) in
      let here : st'.heap.node st.next ≡ b =
        i.kept st.next (omega arith) ∙ put_here st.heap st.next b in
      let there : st'.heap.node p ≡ st.heap.node p =
        i.kept p (omega arith) ∙ put_other st.heap st.next p b lt in
      record {
        grows = omega (arith, i.grows);
        kept = λ q lq. i.kept q (omega arith) ∙ put_other st.heap st.next q b lq;
        erased = λ m le k.
            let above : ltb st.next m ≡ false = ground arith in
            unfold keep_below in
            rw above
              (erased_node p ps rest m k (i.erased m (omega arith) (λ q mem. k q (inr mem))));
        added = λ q mem le. elim (Bool-cases (q == st.next)) [
          | inl e ↦ let same : q ≡ st.next = ground arith in rw (same, here) kind
          | inr apart ↦ elim mem [
            | inl e ↦ absurd (ground (arith, e))
            | inr later ↦ elim later [
              | inl e ↦ absurd (omega (arith, e))
              | inr deep ↦ i.added q deep (ground arith)
            ]
          ]
        ];
        separated =
            unfold Separated in
            (
              inl (rw here kind),
              rw (here, kind)
                  (tt, after_node st'.heap (st'.heap.node p) rest (rw there i.separated)),
            );
      }

barrier_loop-Inserted :
    (current : ℤ) (ps : List ℕ) (st : Store)
    → ltb_ℤ current (pos 0) ≡ false
    → Known ps st.next
    → Levelled st.heap ps
    → let r = barrier_loop current ps st in Inserted (some current) ps st r.0 r.1
unfolding barrier_loop
barrier_loop-Inserted current [] st hc known levelled = record {
  grows = omega arith;
  kept = λ p lt. refl;
  erased = λ m le k. unfold keep_below in refl;
  added = λ q m le. absurd m;
  separated = unfold Separated in tt;
}
barrier_loop-Inserted current (p ∷ ps) st hc known levelled =
    let level = (st.heap.node p).amr_level in
    let hl = levelled p (inl refl) in
    elim (Bool-cases (level_changes current level)) [
      | inl changed ↦
          let b = level_barrier_node current level in
          let st1 = allocate b st in
          let lev : Levelled st1.heap ps =
            λ q m. rw (put_other st.heap st.next q b (known q (inr m))) (levelled q (inr m)) in
          let r = barrier_loop level ps st1 in
          simp (changed, barrier_loop)
            (with_barrier current p ps st known r.0 r.1 b refl
              (barrier_loop-Inserted level ps st1 hl (λ q m. omega (arith, known q (inr m))) lev))
      | inr same ↦
          let r = barrier_loop current ps st in
          simp (same, barrier_loop)
            (without_barrier current p ps st known r.0 r.1
              (unchanged_level current level hc hl same)
              (barrier_loop-Inserted current ps st hc (λ q m. known q (inr m))
                (λ q m. levelled q (inr m))))
    ]

-- The level of the first node, from which the insertion starts.
abbrev pub first_level : Heap → List ℕ → Option ℤ
first_level h [] = none
first_level h (p ∷ ps) = some (h.node p).amr_level

-- In a list of known nodes that all have levels, the insertion separates any two neighbours of
-- different levels by a barrier; every node that is added is a barrier, and without them the list and
-- its nodes are as before.
pub insert_level_barriers-Inserted :
    (ps : List ℕ) (st : Store)
    → Known ps st.next
    → Levelled st.heap ps
    → let r = insert_level_barriers ps st in Inserted (first_level st.heap ps) ps st r.0 r.1
unfolding insert_level_barriers
insert_level_barriers-Inserted [] st known levelled = record {
  grows = omega arith;
  kept = λ p lt. refl;
  erased = λ m le k. unfold keep_below in refl;
  added = λ q m le. absurd m;
  separated = unfold Separated in tt;
}
insert_level_barriers-Inserted (p ∷ ps) st known levelled =
    barrier_loop-Inserted (st.heap.node p).amr_level (p ∷ ps) st (levelled p (inl refl)) known
      levelled

and_false : (b : Bool) → (b && false) ≡ false
and_false true = refl
and_false false = refl

never : (current level : ℤ) → ltb_ℤ current (pos 0) ≡ true → level_changes current level ≡ false
unfolding level_changes
never current level negative = rw negative (and_false (not (eqb_ℤ level current)))

no_level :
    (current : ℤ) (ps : List ℕ) (st : Store)
    → ltb_ℤ current (pos 0) ≡ true
    → barrier_loop current ps st ≡ (ps, st)
unfolding barrier_loop
no_level current [] st negative = refl
no_level current (p ∷ ps) st negative =
    let same : level_changes current (st.heap.node p).amr_level ≡ false =
      never current (st.heap.node p).amr_level negative in
    simp (same, no_level current ps st negative, barrier_loop) refl

-- Where the first node of the list has no level, no barrier is inserted, whatever levels follow.
pub insert_level_barriers_none :
    (p : ℕ) (ps : List ℕ) (st : Store)
    → ltb_ℤ (st.heap.node p).amr_level (pos 0) ≡ true
    → insert_level_barriers (p ∷ ps) st ≡ (p ∷ ps, st)
unfolding insert_level_barriers
insert_level_barriers_none p ps st negative =
    no_level (st.heap.node p).amr_level (p ∷ ps) st negative
