-- ===== src/Runtime/Graph/Kahn/Release.antt =====
-- The inner loop: what the degrees and the queue become when one node's successors are released.
use fluidloom.Prelude.{
  ℕ, zero, suc, ◌+◌, ◌≤◌, ◌<◌, ◌≡◌, refl, List, [], ◌∷◌, arith, length, count, ◌==◌, if◌then◌else◌,
  length-set, get_or-set, get_or_out, count-append,
}
use fluidloom.Runtime.Graph.Kahn.{Search, degree, dec_size, release, release_all}

-- 1 where a degree that was not 0 has become 0.
abbrev pub reached : ℕ → ℕ → ℕ
reached before after = if after == 0 then (if before == 0 then 0 else 1) else 0

pub lt-length_of_degree : (s : Search) (v : ℕ) → 0 < degree s v → v < length s.temp_in_degree
lt-length_of_degree s v h = ground (arith, get_or_out s.temp_in_degree v 0)

dec_size_lem : (n : ℕ) → 0 < n → suc (dec_size n) ≡ n
unfolding dec_size
dec_size_lem zero h = absurd (omega arith)
dec_size_lem (suc n) h = refl

module _ (s : Search) (v : ℕ) where
  release-degree :
      (a : ℕ) → 0 < degree s a → degree (release s a) v + (if a == v then 1 else 0) ≡ degree s v
  unfolding release
  release-degree a h = ground (
    arith,
    lt-length_of_degree s a h,
    get_or-set s.temp_in_degree a v (dec_size (degree s a)) 0,
    dec_size_lem (degree s a),
  )

  release-queue :
      (a : ℕ)
      → 0 < degree s a
      → count v (release s a).ready_queue
        ≡ count v s.ready_queue + reached (degree s v) (degree (release s a) v)
  unfolding release
  release-queue a h = ground (
    arith,
    lt-length_of_degree s a h,
    get_or-set s.temp_in_degree a v (dec_size (degree s a)) 0,
    get_or-set s.temp_in_degree a a (dec_size (degree s a)) 0,
    dec_size_lem (degree s a),
    count-append v s.ready_queue (a ∷ []),
  )

-- Every successor takes one from the degree of its node; none is taken from a degree of 0.
pub record Released (s t : Search) (ss : List ℕ) : Type 0 where
  pub size : length t.temp_in_degree ≡ length s.temp_in_degree
  pub order : t.topological_order ≡ s.topological_order
  pub degrees : (v : ℕ) → degree t v + count v ss ≡ degree s v
  pub queue :
      (v : ℕ) → count v t.ready_queue ≡ count v s.ready_queue + reached (degree s v) (degree t v)

release-size : (s : Search) (a : ℕ) → length (release s a).temp_in_degree ≡ length s.temp_in_degree
unfolding release
release-size s a = length-set s.temp_in_degree a (dec_size (degree s a))

release-order : (s : Search) (a : ℕ) → (release s a).topological_order ≡ s.topological_order
unfolding release
release-order s a = refl

pub release_all-Released :
    (s : Search) (ss : List ℕ)
    → ((v : ℕ) → count v ss ≤ degree s v)
    → Released s (release_all s ss) ss
unfolding release_all
release_all-Released s [] h = record {
  size = refl;
  order = refl;
  degrees = λ v. omega arith;
  queue = λ v. ground arith;
}
release_all-Released s (a ∷ ss) h =
    let up : 0 < degree s a = ground (arith, h a) in
    let deg = λ (v : ℕ). release-degree s v a up in
    let r = release_all-Released (release s a) ss (λ v. ground (arith, h v, deg v)) in
    record {
      size = omega (arith, r.size, release-size s a);
      order = ground (arith, r.order, release-order s a);
      degrees = λ v. omega (arith, r.degrees v, deg v);
      queue = λ v. ground (arith, r.queue v, r.degrees v, deg v, release-queue s v a up);
    }
