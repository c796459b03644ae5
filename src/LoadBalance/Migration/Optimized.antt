-- ===== src/LoadBalance/Migration/Optimized.antt =====
-- An optimized plan is valid and moves the cells of the valid transfers.
use mathlib.Core.List.{Permᴰ}
use fluidloom.Prelude.{
  ℕ, ◌+◌, ◌%◌, ◌^◌, ◌<◌, ◌≡◌, refl, ap, ◌∙◌, inl, inr, arith, List, [], ◌∷◌, true, false,
  Bool-cases, not, ◌||◌, ◌==◌, if◌then◌else◌,
}
use fluidloom.LoadBalance.Migration.{
  Transfer, transfer_valid, MigrationPlan, valid_from, plan_valid, remove_invalid, adjacent, join,
  merge_from, merge, recompute, optimize,
}

unfoldable pub cells : List Transfer → ℕ
cells [] = 0
cells (t ∷ ts) = t.num_cells + cells ts

unfoldable pub AllValid : List Transfer → Type 0
AllValid [] = Unit
AllValid (t ∷ ts) = (transfer_valid t ≡ true) × AllValid ts

-- The cells of the valid transfers.
unfoldable pub valid_cells : List Transfer → ℕ
valid_cells [] = 0
valid_cells (t ∷ ts) = (if transfer_valid t then t.num_cells else 0) + valid_cells ts

remove_invalid-AllValid : (ts : List Transfer) → AllValid (remove_invalid ts)
unfolding remove_invalid AllValid
remove_invalid-AllValid [] = tt
remove_invalid-AllValid (t ∷ ts) =
    elim (Bool-cases (not (transfer_valid t) || (t.num_cells == 0))) [
      | inl drop ↦ simp (drop, remove_invalid) (remove_invalid-AllValid ts)
      | inr keep ↦ simp (keep, remove_invalid) (ground (arith, keep), remove_invalid-AllValid ts)
    ]

valid_has_cells : (t : Transfer) → transfer_valid t ≡ true → (t.num_cells == 0) ≡ false
unfolding transfer_valid
valid_has_cells t v = ground (arith, v)

cells-remove_invalid : (ts : List Transfer) → cells (remove_invalid ts) ≡ valid_cells ts
unfolding remove_invalid cells valid_cells
cells-remove_invalid [] = refl
cells-remove_invalid (t ∷ ts) = elim (Bool-cases (transfer_valid t)) [
  | inl v ↦
      simp (v, valid_has_cells t v, remove_invalid)
        (ap (λ (n : ℕ). t.num_cells + n) (cells-remove_invalid ts))
  | inr i ↦ simp (i, remove_invalid) (omega (arith, cells-remove_invalid ts))
]

join-valid :
    (back t : Transfer)
    → transfer_valid back ≡ true
    → transfer_valid t ≡ true
    → adjacent back t ≡ true
    → back.num_cells + t.num_cells < 2 ^ 64
    → transfer_valid (join back t) ≡ true
unfolding transfer_valid adjacent
join-valid back t vb vt adj fits = ground (arith, vb, vt, adj, fits)

merge_from-AllValid :
    (back : Transfer) (ts : List Transfer)
    → transfer_valid back ≡ true
    → AllValid ts
    → back.num_cells + cells ts < 2 ^ 64
    → AllValid (merge_from back ts) × (cells (merge_from back ts) ≡ back.num_cells + cells ts)
unfolding merge_from AllValid cells
merge_from-AllValid back [] v all fits = ((v, tt), refl)
merge_from-AllValid back (t ∷ ts) v (vt, all) fits = elim (Bool-cases (adjacent back t)) [
  | inl adj ↦
      let e : (back.num_cells + t.num_cells) % 2 ^ 64 ≡ back.num_cells + t.num_cells =
        omega (arith, fits) in
      let joined = join-valid back t v vt adj (omega (arith, fits)) in
      let (all', sum) = merge_from-AllValid (join back t) ts joined all (omega (arith, e, fits)) in
      simp (adj, merge_from) (all', omega (arith, e, sum))
  | inr apart ↦
      let (all', sum) = merge_from-AllValid t ts vt all (omega (arith, fits)) in
      simp (apart, merge_from) ((v, all'), omega (arith, sum))
]

recompute-cells :
    (ts : List Transfer) (total : ℕ)
    → total + cells ts < 2 ^ 64
    → recompute ts total ≡ total + cells ts
unfolding recompute cells
recompute-cells [] total fits = omega arith
recompute-cells (t ∷ ts) total fits =
    let e : (total + t.num_cells) % 2 ^ 64 ≡ total + t.num_cells = omega (arith, fits) in
    rw e (recompute-cells ts (total + t.num_cells) (omega (arith, fits)) ∙ omega arith)

valid_from-true :
    (ts : List Transfer) (total : ℕ)
    → AllValid ts
    → total + cells ts < 2 ^ 64
    → valid_from ts total (total + cells ts) ≡ true
unfolding valid_from AllValid cells
valid_from-true [] total all fits = ground arith
valid_from-true (t ∷ ts) total (v, all) fits =
    let e : (total + t.num_cells) % 2 ^ 64 ≡ total + t.num_cells = omega (arith, fits) in
    let assoc : total + (t.num_cells + cells ts) ≡ total + t.num_cells + cells ts = omega arith in
    rw (v, e, assoc) (valid_from-true ts (total + t.num_cells) all (omega (arith, fits)))

cells-Perm : {ts us : List Transfer} → Permᴰ ts us → cells ts ≡ cells us
unfolding cells
cells-Perm Permᴰ.nil = refl
cells-Perm (Permᴰ.cons e p) = omega (arith, ap (λ (t : Transfer). t.num_cells) e, cells-Perm p)
cells-Perm (Permᴰ.swap e f) =
    omega (arith, ap (λ (t : Transfer). t.num_cells) e, ap (λ (t : Transfer). t.num_cells) f)
cells-Perm (Permᴰ.trans p q) = cells-Perm p ∙ cells-Perm q

AllValid-Perm : {ts us : List Transfer} → Permᴰ ts us → AllValid us → AllValid ts
unfolding AllValid
AllValid-Perm Permᴰ.nil all = all
AllValid-Perm (Permᴰ.cons e p) (v, all) = (ap transfer_valid e ∙ v, AllValid-Perm p all)
AllValid-Perm (Permᴰ.swap e f) (v, (w, all)) =
    (ap transfer_valid e ∙ w, (ap transfer_valid f ∙ v, all))
AllValid-Perm (Permᴰ.trans p q) all = AllValid-Perm p (AllValid-Perm q all)

merge-AllValid :
    (ts : List Transfer)
    → AllValid ts
    → cells ts < 2 ^ 64
    → AllValid (merge ts) × (cells (merge ts) ≡ cells ts)
unfolding merge AllValid cells
merge-AllValid [] all fits = (all, refl)
merge-AllValid (t ∷ ts) (v, rest) fits = merge_from-AllValid t ts v rest fits

plan_valid-AllValid :
    (ts : List Transfer)
    → AllValid ts
    → cells ts < 2 ^ 64
    → plan_valid (record { transfers = ts; total_cells_to_migrate = cells ts }) ≡ true
unfolding plan_valid
plan_valid-AllValid [] all fits = refl
plan_valid-AllValid (t ∷ ts) all fits =
    let none_yet : 0 + cells (t ∷ ts) ≡ cells (t ∷ ts) = omega arith in
    rw none_yet at (valid_from-true (t ∷ ts) 0 all (omega (arith, fits)))

-- Where sorting permutes a list and the valid transfers have less than 2^64 cells together, an
-- optimized plan is valid, and both its transfers and its total have the cells of the transfers of the
-- plan that are valid.
pub optimize_lem :
    (sort : List Transfer → List Transfer) (p : MigrationPlan)
    → ((ts : List Transfer) → Permᴰ (sort ts) ts)
    → valid_cells p.transfers < 2 ^ 64
    → let q = optimize sort p in
      (plan_valid q ≡ true)
      × (q.total_cells_to_migrate ≡ valid_cells p.transfers)
      × (cells q.transfers ≡ valid_cells p.transfers)
unfolding optimize
optimize_lem sort p sorts fits =
    let kept = remove_invalid p.transfers in
    let sum = cells-Perm (sorts kept) ∙ cells-remove_invalid p.transfers in
    let all = AllValid-Perm (sorts kept) (remove_invalid-AllValid p.transfers) in
    let (all', same) = merge-AllValid (sort kept) all (omega (arith, sum, fits)) in
    let merged = merge (sort kept) in
    let total : recompute merged 0 ≡ cells merged =
      recompute-cells merged 0 (omega (arith, same, sum, fits)) ∙ omega arith in
    (
      rw total (plan_valid-AllValid merged all' (omega (arith, same, sum, fits))),
      total ∙ same ∙ sum,
      same ∙ sum,
    )
