-- ===== src/Devices/Mock/Ledger.antt =====
-- The bytes that a backend counts are those of the buffers that it gave since it was initialized.
use fluidloom.Prelude.{
  ℕ, ◌+◌, ◌%◌, ◌^◌, ◌≤◌, ◌<◌, ◌≡◌, refl, sym, ap, ◌∙◌, ◌⊎◌, inl, inr, arith, List, [], ◌∷◌, Option,
  Bool, false, Bool-cases, not, ltb, ◌==◌, ℤ, pos, eqb_ℤ, Result, ok, err,
}
use fluidloom.Devices.Mock.{
  BackendError, mock_memory_limit, MockBuffer, MockBackend, new_backend, initialize, shutdown,
  mock_buffer, allocate_buffer,
}

pub data Call : Type 0 where
  start : ℤ → Call
  stop : Call
  request : ℕ → Option (List ℕ) → Call

-- A backend, and the sizes of the buffers that it gave since it was initialized, the last first.
pub record Run : Type 0 where
  pub backend : MockBackend
  pub given : List ℕ

module _ (host_has : ℕ → Bool) where
  -- A call that throws changes nothing.
  unfoldable pub step : Call → Run → Run
  step (start device_id) r = elim (initialize device_id r.backend) [
    | ok b ↦ record { backend = b; given = [] }
    | err e ↦ r
  ]
  step stop r = elim (shutdown r.backend) [
    | ok b ↦ record { backend = b; given = r.given }
    | err e ↦ r
  ]
  step (request size initial_data) r = elim (allocate_buffer host_has size initial_data r.backend) [
    | ok (buffer, b) ↦ record { backend = b; given = size ∷ r.given }
    | err e ↦ r
  ]

  unfoldable pub run : List Call → Run → Run
  run [] r = r
  run (c ∷ cs) r = run cs (step c r)

unfoldable pub sizes : List ℕ → ℕ
sizes [] = 0
sizes (n ∷ ns) = n + sizes ns

abbrev pub new_run : Run
new_run = record { backend = new_backend; given = [] }

abbrev pub Counts : Run → Type 0
Counts r = (r.backend.allocated_bytes ≡ sizes r.given) × (sizes r.given ≤ mock_memory_limit)

Result-cases : {E A : Type 0} (r : Result E A) → ((a : A) × (r ≡ ok a)) ⊎ ((e : E) × (r ≡ err e))
Result-cases (ok a) = inl (a, refl)
Result-cases (err e) = inr (e, refl)

abbrev bytes_or : ℕ → Result BackendError MockBackend → ℕ
bytes_or otherwise (ok b) = b.allocated_bytes
bytes_or otherwise (err e) = otherwise

abbrev given_bytes : Result BackendError (MockBuffer × MockBackend) → ℕ
given_bytes (ok (buffer, b)) = b.allocated_bytes
given_bytes (err e) = 0

initialize-zero :
    (device_id : ℤ) (b c : MockBackend) → initialize device_id b ≡ ok c → c.allocated_bytes ≡ 0
unfolding initialize
initialize-zero device_id b c e = elim (Bool-cases b.initialized) [
  | inl running ↦ absurd (cc (simp (running, initialize) at e))
  | inr fresh ↦ elim (Bool-cases (not (eqb_ℤ device_id (pos 0)))) [
    | inl other ↦ absurd (cc (simp (fresh, other, initialize) at e))
    | inr zeroth ↦ sym (ap (bytes_or 0) (simp (fresh, zeroth, initialize) at e))
  ]
]

shutdown-keeps : (b c : MockBackend) → shutdown b ≡ ok c → c.allocated_bytes ≡ b.allocated_bytes
unfolding shutdown
shutdown-keeps b c e = elim (Bool-cases (not b.initialized)) [
  | inl idle ↦ absurd (cc (simp (idle, shutdown) at e))
  | inr running ↦ sym (ap (bytes_or 0) (simp (running, shutdown) at e))
]

small : (size : ℕ) → not (ltb size (2 ^ 63)) ≡ false → size < 2 ^ 63
small size h = ground (arith, h)

allocate_buffer-adds :
    (host_has : ℕ → Bool) (size : ℕ) (initial_data : Option (List ℕ)) (b c : MockBackend)
    (buffer : MockBuffer)
    → allocate_buffer host_has size initial_data b ≡ ok (buffer, c)
    → b.allocated_bytes ≤ mock_memory_limit
    → (c.allocated_bytes ≡ b.allocated_bytes + size) × (c.allocated_bytes ≤ mock_memory_limit)
unfolding allocate_buffer
allocate_buffer-adds host_has size initial_data b c buffer e le =
    let total = (b.allocated_bytes + size) % 2 ^ 64 in
    elim (Bool-cases (not b.initialized)) [
      | inl idle ↦ absurd (cc (simp (idle, allocate_buffer) at e))
      | inr on ↦ elim (Bool-cases (size == 0)) [
        | inl none_asked ↦ absurd (cc (simp (on, none_asked, allocate_buffer) at e))
        | inr asked ↦ elim (Bool-cases (ltb mock_memory_limit total)) [
          | inl full ↦ absurd (cc (simp (on, asked, full, allocate_buffer) at e))
          | inr room ↦ elim (Bool-cases (not (ltb size (2 ^ 63)))) [
            | inl long ↦ absurd (cc (simp (on, asked, room, long, allocate_buffer) at e))
            | inr short ↦ elim (Bool-cases (not (host_has size))) [
              | inl bad ↦ absurd (cc (simp (on, asked, room, short, bad, allocate_buffer) at e))
              | inr good ↦ elim (Result-cases (mock_buffer size initial_data)) [
                | inr (failure, bad) ↦
                    absurd (cc (simp (on, asked, room, short, good, bad, allocate_buffer) at e))
                | inl (made, fine) ↦
                    let same : total ≡ c.allocated_bytes =
                      ap given_bytes
                        (simp (on, asked, room, short, good, fine, allocate_buffer) at e) in
                    let exact : total ≡ b.allocated_bytes + size =
                      omega (arith, small size short, le) in
                    (sym same ∙ exact, ground (arith, same, room))
              ]
            ]
          ]
        ]
      ]
    ]

step-Counts : (host_has : ℕ → Bool) (c : Call) (r : Run) → Counts r → Counts (step host_has c r)
unfolding step sizes
step-Counts host_has (start device_id) r (same, le) =
    elim (Result-cases (initialize device_id r.backend)) [
      | inl (b, e) ↦ simp (e, step) (initialize-zero device_id r.backend b e, omega arith)
      | inr (failure, e) ↦ simp (e, step) (same, le)
    ]
step-Counts host_has stop r (same, le) = elim (Result-cases (shutdown r.backend)) [
  | inl (b, e) ↦ simp (e, step) (shutdown-keeps r.backend b e ∙ same, le)
  | inr (failure, e) ↦ simp (e, step) (same, le)
]
step-Counts host_has (request size initial_data) r (same, le) =
    elim (Result-cases (allocate_buffer host_has size initial_data r.backend)) [
      | inl ((buffer, b), e) ↦
          let (adds, bound) =
            allocate_buffer-adds host_has size initial_data r.backend b buffer e
              (omega (arith, same, le)) in
          simp (e, step) (omega (arith, adds, same), omega (arith, adds, same, bound))
      | inr (failure, e) ↦ simp (e, step) (same, le)
    ]

run-Counts :
    (host_has : ℕ → Bool) (cs : List Call) (r : Run) → Counts r → Counts (run host_has cs r)
unfolding run
run-Counts host_has [] r counts = counts
run-Counts host_has (c ∷ cs) r counts =
    run-Counts host_has cs (step host_has c r) (step-Counts host_has c r counts)

-- After any calls on a new backend, of which some may throw, the bytes that it counts are the sizes of
-- all buffers that it gave since it was last initialized, released or not, and never more than the
-- memory that it simulates.
pub run_new-Counts :
    (host_has : ℕ → Bool) (cs : List Call)
    → let r = run host_has cs new_run in
      (r.backend.allocated_bytes ≡ sizes r.given) × (r.backend.allocated_bytes ≤ mock_memory_limit)
unfolding sizes
run_new-Counts host_has cs =
    let (same, le) = run-Counts host_has cs new_run (refl, omega arith) in
    (same, omega (arith, same, le))
