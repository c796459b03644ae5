-- ===== src/Adaptation/Engine.antt =====
-- `AdaptationEngine::adapt` (src/adaptation/AdaptationEngine.cpp): balance, split, merge, rebuild.
-- A `Device` holds the parameters: which calls of OpenCL succeed, the order of the threads, what fresh
-- buffers hold, the operations on the fields and the configuration. The event and the log lines are
-- left out.
pub mod Adapts
use fluidloom.Prelude.{
  ℕ, List, map, Bool, true, false, ◌&&◌, length, ltb, ◌==◌, if◌then◌else◌, ℤ, Result, ok, err,
  ◌>>=◌,
}
use fluidloom.Adaptation.Cell.{CellDescriptor}
use fluidloom.Adaptation.Probing.{HashState}
use fluidloom.Adaptation.Balance.{BalanceError, Enforced, enforce}
use fluidloom.Adaptation.Split.{SplitResult, SplitError, split}
use fluidloom.Adaptation.Merge.{MergeError, Merged, merge}
use fluidloom.Adaptation.Rebuild.{MergeResult, Mesh, compact_and_rebuild_gpu, resize_buffers}

pub record Device (A : Type 0) : Type 0 where
  pub allocates : ℕ → Bool
  pub balance_launches : ℕ → Bool
  pub split_calls : ℕ → Bool
  pub merge_calls : ℕ → Bool
  pub order : ℕ → List ℕ
  pub junk_ids : ℕ → List ℕ
  pub junk : CellDescriptor
  pub junk_row : List A
  pub junk_flag : ℤ
  pub plus : A → A → A
  pub eighth : A → A
  pub zero_field : A
  pub num_field_components : ℕ
  pub growth : ℕ → ℕ
  pub volume_weighted : Bool
  pub enforce_2_1_balance : Bool
  pub max_balance_iterations : ℕ

-- The hash tables that the two engines keep.
pub record Tables : Type 0 where
  pub balance_table : HashState
  pub merge_table : HashState

pub data AdaptError : Type 0 where
  balance_error : BalanceError → AdaptError
  split_error : SplitError → AdaptError
  merge_error : MergeError → AdaptError

abbrev pub on_balance : Result BalanceError Enforced → Result AdaptError Enforced
on_balance (ok r) = ok r
on_balance (err e) = err (balance_error e)

abbrev pub on_split : Result SplitError SplitResult → Result AdaptError SplitResult
on_split (ok r) = ok r
on_split (err e) = err (split_error e)

abbrev pub on_merge : {A : Type 0} → Result MergeError (Merged A) → Result AdaptError (Merged A)
on_merge (ok r) = ok r
on_merge (err e) = err (merge_error e)

-- The mesh and the tables.
pub record Adapted (A : Type 0) : Type 0 where
  pub mesh : Mesh A
  pub tables : Tables

module _ {A : Type 0} (d : Device A) where
  unfoldable pub balance_step : Adapted A → Result AdaptError (Adapted A)
  balance_step a =
      if d.enforce_2_1_balance
      then on_balance (
          enforce d.allocates d.balance_launches d.max_balance_iterations a.mesh.cells
            (map (λ c. c.level) a.mesh.cells) a.mesh.flags a.tables.balance_table)
        >>= (λ e. ok (record {
          mesh = record a.mesh { flags = e.progress_made.flags };
          tables = record a.tables { balance_table = e.hash_state };
        }))
      else ok a

  -- The last growth of the buffers.
  unfoldable pub grow : Mesh A → Mesh A
  grow mesh =
      if ltb mesh.capacity (length mesh.cells)
      then resize_buffers d.junk d.junk_row d.junk_flag d.growth (d.growth (length mesh.cells)) mesh
      else mesh

  -- The rebuilding, if cells were made.
  unfoldable pub rebuild_step : SplitResult → MergeResult A → Mesh A → Mesh A
  rebuild_step s m mesh =
      if (s.num_children == 0) && (m.num_parents_created == 0)
      then mesh
      else grow (compact_and_rebuild_gpu d.junk d.junk_row d.junk_flag d.growth s m mesh)

  unfoldable pub adapt : Adapted A → Result AdaptError (Adapted A)
  adapt a = balance_step a >>= λ b.
      on_split (split d.junk d.split_calls b.mesh.cells b.mesh.flags b.mesh.has_fields) >>= λ s.
      on_merge (
        merge d.plus d.eighth d.zero_field d.num_field_components d.volume_weighted d.junk
          d.merge_calls (d.order (length b.mesh.cells)) (d.junk_ids (length b.mesh.cells))
          d.allocates b.mesh.cells b.mesh.flags b.mesh.has_fields b.mesh.rows b.tables.merge_table)
      >>= λ m. ok (record {
        mesh = rebuild_step s m.result b.mesh;
        tables = record b.tables { merge_table = m.hash_state };
      })
