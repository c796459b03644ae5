-- ===== src/Adaptation/Engine/Adapts.antt =====
-- What a call of `adapt` does to the mesh.
use fluidloom.Prelude.{
  ℕ, ◌+◌, ◌*◌, ◌≤◌, ◌<◌, ◌≡◌, refl, ◌∙◌, inl, inr, arith, List, ◌++◌, map, true, false, ◌&&◌,
  Bool-cases, length, length-append, ltb, ◌==◌, if◌then◌else◌, ℤ, ok, In,
}
use fluidloom.Adaptation.Balance.Returns.{enforce-returns}
use fluidloom.Adaptation.Split.{SplitResult}
use fluidloom.Adaptation.Split.Octants.{octants_of, splittables, octants_few, split-Octants}
use fluidloom.Adaptation.Rebuild.Survivors.{left_over, valid_of-left_over}
use fluidloom.Adaptation.Merge.{Merged, merge}
use fluidloom.Adaptation.Rebuild.{MergeResult, Mesh}
use fluidloom.Adaptation.Rebuild.Compact.{
  kept, ones, valid_of, ones-valid_of, compact_and_rebuild_gpu_lem,
  compact_and_rebuild_gpu_capacity,
}
use fluidloom.Adaptation.Merge.Threads.{Coarse}
use fluidloom.Adaptation.Merge.Locked.{merge-TakesCoarse}
use fluidloom.Adaptation.Engine.{Device, Tables, Adapted, balance_step, grow, rebuild_step, adapt}

-- A device on which every call succeeds and every cell has a thread.
pub record Works {A : Type 0} (d : Device A) : Type 0 where
  pub allocates : (bytes : ℕ) → d.allocates bytes ≡ true
  pub balances : (k : ℕ) → d.balance_launches k ≡ true
  pub splits : (k : ℕ) → d.split_calls k ≡ true
  pub merges : (k : ℕ) → d.merge_calls k ≡ true
  pub threads : (n : ℕ) → length (d.order n) ≡ n
  pub inside : (n k : ℕ) → In k (d.order n) → k < n
  pub each : (n k : ℕ) → k < n → In k (d.order n)
  pub places : (n : ℕ) → length (d.junk_ids n) ≡ n

-- The mesh with other refine flags.
abbrev pub with_flags : {A : Type 0} → Mesh A → List ℤ → Mesh A
with_flags mesh flags = record mesh { flags = flags }

-- What `adapt` does to the cells, by the flags of the balance step and the result of merging: nothing
-- where no cell is split and no parent made, else the cells that are left over come first, then the
-- octants of the cells that are split, then the new parents.
pub record Changes {A : Type 0} (d : Device A) (a r : Adapted A) : Type 0 where
  pub flags : List ℤ
  pub tables : Tables
  pub sized : length flags ≡ length a.mesh.cells
  pub balanced : balance_step d a ≡ ok (record { mesh = with_flags a.mesh flags; tables = tables })
  pub merged : Merged A
  pub merge_run :
      merge d.plus d.eighth d.zero_field d.num_field_components d.volume_weighted d.junk
        d.merge_calls
        (d.order (length a.mesh.cells))
        (d.junk_ids (length a.mesh.cells))
        d.allocates
        a.mesh.cells
        flags
        a.mesh.has_fields
        a.mesh.rows
        tables.merge_table
      ≡ ok merged
  pub coarse : (i : ℕ) → In i merged.result.merged_child_indices → Coarse a.mesh.cells flags i
  pub cells_changed : r.mesh.cells ≡ (
      if (splittables a.mesh.cells flags == 0) && (merged.result.num_parents_created == 0)
      then a.mesh.cells
      else left_over flags merged.result.merged_child_indices 0 a.mesh.cells
        ++ octants_of a.mesh.cells flags
        ++ merged.result.parents)

module _ {A : Type 0} (d : Device A) (works : Works d) where
  balance_step_lem :
      (a : Adapted A)
      → length a.mesh.flags ≡ length a.mesh.cells
      → 0 < length a.mesh.cells
      → length a.mesh.cells ≤ 65536
      → (flags : List ℤ) × (t : Tables) × (balance_step d a
          ≡ ok (record { mesh = with_flags a.mesh flags; tables = t }))
        × (length flags ≡ length a.mesh.cells)
  unfolding balance_step
  balance_step_lem a same one_cell few = elim (Bool-cases d.enforce_2_1_balance) [
    | inr skipped ↦ (a.mesh.flags, a.tables, rw skipped refl, same)
    | inl wanted ↦
        let (e, run, kept_size) =
          enforce-returns d.allocates d.balance_launches d.max_balance_iterations a.mesh.cells
            (map (λ c. c.level) a.mesh.cells) a.mesh.flags a.tables.balance_table works.allocates
            works.balances one_cell (omega (arith, few)) in
        (
          e.progress_made.flags,
          record a.tables { balance_table = e.hash_state },
          rw (wanted, run) refl,
          kept_size ∙ same,
        )
  ]

  rebuild_step_lem :
      (s : SplitResult) (m : MergeResult A) (mesh : Mesh A)
      → length mesh.flags ≡ length mesh.cells
      → 0 < length mesh.cells
      → length mesh.cells ≤ 65536
      → length s.children ≤ 8 * length mesh.cells
      → length m.parents ≤ length mesh.cells
      → 10 * length mesh.cells ≤ mesh.capacity
      → (rebuild_step d s m mesh).cells ≡ (
          if (s.num_children == 0) && (m.num_parents_created == 0)
          then mesh.cells
          else kept mesh.cells (valid_of m mesh) ++ s.children ++ m.parents)
  unfolding rebuild_step grow
  rebuild_step_lem s m mesh same one_cell few children parents room =
      elim (Bool-cases ((s.num_children == 0) && (m.num_parents_created == 0))) [
        | inl nothing ↦ rw nothing refl
        | inr something ↦
            let (bound, size) = ones-valid_of m mesh same in
            let fits : ones (valid_of m mesh) + length s.children + length m.parents
                ≤ mesh.capacity =
              omega (arith, bound, children, parents, room) in
            let old = kept mesh.cells (valid_of m mesh) in
            let made =
              compact_and_rebuild_gpu_lem d.junk d.junk_row d.junk_flag d.growth s m mesh same
                one_cell few fits in
            let capacity =
              compact_and_rebuild_gpu_capacity d.junk d.junk_row d.junk_flag d.growth s m mesh same
                one_cell few fits in
            let within : ltb mesh.capacity (length (old ++ s.children ++ m.parents)) ≡ false =
              ground (
                arith,
                fits,
                size,
                length-append old s.children,
                length-append (old ++ s.children) m.parents,
              ) in
            rw something (rw (capacity, made, within) refl)
      ]

  -- For a device that works and a mesh of 1 to 65536 cells with a flag for each, whose capacity is at
  -- least ten times the number of its cells, `adapt` returns. By the flags that the balance step leaves
  -- and the result of merging with them, which takes away only fluid cells that are marked for
  -- coarsening: where no flagged cell is fluid and below level 8 and no parent is made, the cells stay
  -- as they are; else they are the cells that are neither flagged nor merged, in their order, then the
  -- eight octants of each flagged cell that is fluid and below level 8, then the new parents.
  pub adapt-Changes :
      (a : Adapted A)
      → length a.mesh.flags ≡ length a.mesh.cells
      → 0 < length a.mesh.cells
      → length a.mesh.cells ≤ 65536
      → 10 * length a.mesh.cells ≤ a.mesh.capacity
      → (r : Adapted A) × (adapt d a ≡ ok r) × Changes d a r
  unfolding adapt
  adapt-Changes a same one_cell few room =
      let cells = a.mesh.cells in
      let n = length cells in
      let (flags, t, balanced, sized) = balance_step_lem a same one_cell few in
      let mesh = with_flags a.mesh flags in
      let (s, split_run, made) =
        split-Octants d.junk d.split_calls cells flags a.mesh.has_fields works.splits sized
          (omega (arith, few)) in
      let (m, merge_run, coarse, parents) =
        merge-TakesCoarse d.plus d.eighth d.zero_field d.num_field_components d.volume_weighted
          d.junk d.merge_calls (d.order n) (d.junk_ids n) d.allocates cells flags a.mesh.has_fields
          a.mesh.rows t.merge_table works.allocates works.merges (omega (arith, few))
          (works.inside n) (works.each n) (works.places n) in
      let children : length s.children ≤ 8 * n = rw made.children_made (octants_few cells flags) in
      let step =
        rebuild_step_lem s m.result mesh sized one_cell few children
          (omega (arith, parents, works.threads n)) room in
      let nothing : (s.num_children == 0) ≡ (splittables cells flags == 0) =
        ground (arith, made.children_counted) in
      (
        record {
          mesh = rebuild_step d s m.result mesh;
          tables = record t { merge_table = m.hash_state };
        },
        rw balanced (rw (split_run, merge_run) refl),
        record {
          flags = flags;
          tables = t;
          sized = sized;
          balanced = balanced;
          merged = m;
          merge_run = merge_run;
          coarse = coarse;
          cells_changed =
              rw (nothing, made.children_made, valid_of-left_over m.result mesh sized) at step;
        },
      )
