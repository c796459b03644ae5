-- ===== src/Tests/Pipeline.antt =====
-- Three kernels: the first writes "rho", the others read "rho" and write "u".
use fluidloom.Prelude.{
  ℕ, zero, suc, ◌+◌, ◌≡◌, refl, sym, ap, ◌∙◌, inl, inr, String, true, Bool-cases, List, [], ◌∷◌,
  get_elem?, some, if◌then◌else◌, ◌==◌, pos,
}
use fluidloom.Runtime.Node.{
  kernel, ExecutionNode, execution_node, set_id, set_read_fields, set_write_fields, Heap, has_name,
}
use fluidloom.Runtime.Plan.{Prepared}
use fluidloom.Runtime.Scheduler.{Device}
use fluidloom.Runtime.Scheduler.Serial.{Confined}

abbrev pub reads : ℕ → List String
reads p = if p == 0 then [] else "rho" ∷ []

abbrev pub writes : ℕ → List String
writes p = if p == 0 then "rho" ∷ [] else "u" ∷ []

abbrev pub sample_node : ℕ → ExecutionNode
sample_node p =
    set_id (pos p)
      (set_read_fields (reads p) (set_write_fields (writes p) (execution_node kernel "step")))

abbrev pub sample : Heap
sample = record { node = sample_node; alive = λ p. true }

abbrev pub steps : List ℕ
steps = 0 ∷ 1 ∷ 2 ∷ []

at_step : (i p : ℕ) → get_elem? steps i ≡ some p → i ≡ p
at_step zero p e = cc
at_step (suc zero) p e = cc
at_step (suc (suc zero)) p e = cc
at_step (suc (suc (suc i))) p e = absurd (cc)

pub sample-Prepared : Prepared sample steps
sample-Prepared = record {
  live = λ i p e. refl;
  fresh = λ i p e. refl;
  distinct =
      λ i j p q fp fq e. let same : p ≡ q = cc in at_step i p fp ∙ same ∙ sym (at_step j q fq);
}

-- A kernel adds its number, and the density where it reads it.
abbrev pub device : Device
device = record {
  Event = ℕ;
  Value = ℕ;
  effect = λ p m f.
      if has_name f (writes p)
      then p + 1 + (if has_name "rho" (reads p) then m "rho" else 0)
      else m f;
  event = λ p wait. some p;
}

pub device-Confined : Confined device sample
device-Confined = record {
  untouched = λ p m f e. rw e refl;
  determined = λ p m m' same f e. rw e (elim (Bool-cases (has_name "rho" (reads p))) [
    | inl reading ↦ rw reading (ap (λ (v : ℕ). p + 1 + v) (same "rho" (inl reading)))
    | inr idle ↦ rw idle refl
  ]);
}
