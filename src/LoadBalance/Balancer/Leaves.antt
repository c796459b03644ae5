-- ===== src/LoadBalance/Balancer/Leaves.antt =====
-- The transfers of a plan that leave one rank: optimizing keeps that.
use mathlib.Core.List.{Permᴰ}
use fluidloom.Prelude.{
  ℕ, ◌≤◌, ◌≡◌, subst, sym, inl, inr, List, [], ◌∷◌, true, Bool-cases, not, ◌||◌, ◌==◌, pos, ltb_ℤ,
}
use fluidloom.LoadBalance.Migration.{
  Transfer, transfer_valid, MigrationPlan, remove_invalid, adjacent, join, merge_from, merge,
  optimize,
}

-- A transfer of indices of the range, from the rank to one of the others.
pub record Leaves (my_rank num_gpus local_min local_max : ℕ) (t : Transfer) : Type 0 where
  pub from_here : t.source_rank ≡ pos my_rank
  pub to_rank : ltb_ℤ t.dest_rank (pos num_gpus) ≡ true
  pub starts : local_min ≤ t.hilbert_start
  pub ends : t.hilbert_end ≤ local_max

module _ (my_rank num_gpus local_min local_max : ℕ) where
  unfoldable pub AllLeave : List Transfer → Type 0
  AllLeave [] = Unit
  AllLeave (t ∷ ts) = Leaves my_rank num_gpus local_min local_max t × AllLeave ts

  remove_invalid-AllLeave : (ts : List Transfer) → AllLeave ts → AllLeave (remove_invalid ts)
  unfolding remove_invalid AllLeave
  remove_invalid-AllLeave [] all = tt
  remove_invalid-AllLeave (t ∷ ts) (l, all) =
      elim (Bool-cases (not (transfer_valid t) || (t.num_cells == 0))) [
        | inl drop ↦ simp (drop, remove_invalid) (remove_invalid-AllLeave ts all)
        | inr keep ↦ simp (keep, remove_invalid) (l, remove_invalid-AllLeave ts all)
      ]

  merge_from-AllLeave :
      (back : Transfer) (ts : List Transfer)
      → Leaves my_rank num_gpus local_min local_max back
      → AllLeave ts
      → AllLeave (merge_from back ts)
  unfolding merge_from AllLeave
  merge_from-AllLeave back [] l all = (l, tt)
  merge_from-AllLeave back (t ∷ ts) l (k, all) = elim (Bool-cases (adjacent back t)) [
    | inl adj ↦
        let joined : Leaves my_rank num_gpus local_min local_max (join back t) = record {
          from_here = l.from_here;
          to_rank = l.to_rank;
          starts = l.starts;
          ends = k.ends;
        } in
        simp (adj, merge_from) (merge_from-AllLeave (join back t) ts joined all)
    | inr apart ↦ simp (apart, merge_from) (l, merge_from-AllLeave t ts k all)
  ]

  merge-AllLeave : (ts : List Transfer) → AllLeave ts → AllLeave (merge ts)
  unfolding merge AllLeave
  merge-AllLeave [] all = all
  merge-AllLeave (t ∷ ts) (l, all) = merge_from-AllLeave t ts l all

  AllLeave-Perm : {ts us : List Transfer} → Permᴰ ts us → AllLeave us → AllLeave ts
  unfolding AllLeave
  AllLeave-Perm Permᴰ.nil all = all
  AllLeave-Perm (Permᴰ.cons e p) (l, all) =
      (subst (Leaves my_rank num_gpus local_min local_max) (sym e) l, AllLeave-Perm p all)
  AllLeave-Perm (Permᴰ.swap e f) (l, (k, all)) = (
    subst (Leaves my_rank num_gpus local_min local_max) (sym e) k,
    (subst (Leaves my_rank num_gpus local_min local_max) (sym f) l, all),
  )
  AllLeave-Perm (Permᴰ.trans p q) all = AllLeave-Perm p (AllLeave-Perm q all)

  pub optimize-AllLeave :
      (sort : List Transfer → List Transfer) (p : MigrationPlan)
      → ((ts : List Transfer) → Permᴰ (sort ts) ts)
      → AllLeave p.transfers
      → AllLeave (optimize sort p).transfers
  unfolding optimize
  optimize-AllLeave sort p sorts all =
      let kept = remove_invalid p.transfers in
      merge-AllLeave (sort kept)
        (AllLeave-Perm (sorts kept) (remove_invalid-AllLeave p.transfers all))
