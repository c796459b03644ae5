-- ===== src/Runtime/Scheduler/Waits.antt =====
-- The event that each command waits for, read off the commands before it in the queue.
use fluidloom.Prelude.{
  ℕ, ◌≡◌, refl, sym, ◌∙◌, inl, inr, List, [], ◌∷◌, ◌++◌, append_assoc, append-nil, Option, none,
  some, Option-cases, Bool, true, false, Bool-cases, ℤ, eqb_ℤ, if◌then◌else◌,
}
use fluidloom.Runtime.Node.{Heap}
use fluidloom.Runtime.Scheduler.{Device, Command, Run, idle, wait_events, last_event, launch}

module _ (d : Device) (h : Heap) where
  -- What the last command of a node with the identifier returned.
  unfoldable pub returned : List (Command d) → ℤ → Option (Option d.Event)
  returned [] id = none
  returned (c ∷ cs) id = elim (returned cs id) [
    | some e ↦ some e
    | none ↦ if eqb_ℤ (h.node c.node).node_id id then some c.completion else none
  ]

  -- The event of a predecessor, if it is alive, was executed and gave one.
  abbrev pub event_if : Bool → Option (Option d.Event) → Option d.Event
  event_if false found = none
  event_if true none = none
  event_if true (some e) = e

  abbrev pub event_of : List (Command d) → ℕ → Option d.Event
  event_of queue p = event_if (h.alive p) (returned queue (h.node p).node_id)

  -- The event of the last predecessor that has one.
  unfoldable pub awaited : List (Command d) → List ℕ → Option d.Event
  awaited queue [] = none
  awaited queue (p ∷ ps) = elim (awaited queue ps) [ some e ↦ some e | none ↦ event_of queue p ]

  -- Every command behind the given ones waits for the event of its last predecessor that has one.
  unfoldable pub AllWait : List (Command d) → List (Command d) → Type 0
  AllWait front [] = Unit
  AllWait front (c ∷ cs) =
      (c.wait ≡ awaited front (h.node c.node).predecessors) × AllWait (front ++ c ∷ []) cs

  pub record Right (r : Run d) : Type 0 where
    pub events : (id : ℤ) → r.node_events id ≡ returned r.queue id
    pub waits : AllWait [] r.queue

  pub idle-Right : Right (idle d)
  unfolding returned AllWait
  idle-Right = record { events = λ id. refl; waits = tt }

  last_event_given :
      (e : d.Event) (es : List d.Event) → (f : d.Event) × (last_event d (e ∷ es) ≡ some f)
  unfolding last_event
  last_event_given e [] = (e, refl)
  last_event_given e (f ∷ es) = last_event_given f es

  -- An event in front of others is the last one only where there are none.
  last_event-cons :
      (e : d.Event) (es : List d.Event)
      → last_event d (e ∷ es) ≡ (elim (last_event d es) [ some f ↦ some f | none ↦ some e ])
  unfolding last_event
  last_event-cons e [] = refl
  last_event-cons e (f ∷ es) = let (g, given) = last_event_given f es in rw given refl

  awaited-cons :
      (queue : List (Command d)) (p : ℕ) (ps : List ℕ) (o : Option d.Event)
      → event_of queue p ≡ o
      → awaited queue (p ∷ ps) ≡ (elim (awaited queue ps) [ some e ↦ some e | none ↦ o ])
  unfolding awaited
  awaited-cons queue p ps o e = elim (Option-cases (awaited queue ps)) [
    | inl nothing ↦ rw nothing e
    | inr (f, found) ↦ rw found refl
  ]

  or_nothing : (o : Option d.Event) → o ≡ (elim o [ some e ↦ some e | none ↦ none ])
  or_nothing none = refl
  or_nothing (some e) = refl

  last_event-awaited :
      (events : ℤ → Option (Option d.Event)) (queue : List (Command d)) (ps : List ℕ)
      → ((id : ℤ) → events id ≡ returned queue id)
      → last_event d (wait_events d h events ps) ≡ awaited queue ps
  unfolding wait_events awaited last_event
  last_event-awaited events queue [] same = refl
  last_event-awaited events queue (p ∷ ps) same =
      let rest = last_event-awaited events queue ps same in
      let here = same (h.node p).node_id in
      let silent = or_nothing (awaited queue ps) in
      elim (Bool-cases (h.alive p)) [
        | inr gone ↦ rw gone (rest ∙ silent ∙ sym (awaited-cons queue p ps none (rw gone refl)))
        | inl alive ↦ elim (Option-cases (returned queue (h.node p).node_id)) [
          | inl never ↦
              rw (alive, here, never)
                (rest ∙ silent ∙ sym (awaited-cons queue p ps none (rw (alive, never) refl)))
          | inr (none, null) ↦
              rw (alive, here, null)
                (rest ∙ silent ∙ sym (awaited-cons queue p ps none (rw (alive, null) refl)))
          | inr (some e, gave) ↦
              rw (alive, here, gave)
                (rw rest at (last_event-cons e (wait_events d h events ps))
                  ∙ sym (awaited-cons queue p ps (some e) (rw (alive, gave) refl)))
        ]
      ]

  returned-append :
      (cs : List (Command d)) (c : Command d) (id : ℤ)
      → returned (cs ++ c ∷ []) id
        ≡ (if eqb_ℤ (h.node c.node).node_id id then some c.completion else returned cs id)
  unfolding returned
  returned-append [] c id = refl
  returned-append (b ∷ cs) c id =
      let rest = returned-append cs c id in
      elim (Bool-cases (eqb_ℤ (h.node c.node).node_id id)) [
        | inl same ↦ rw (rest, same) refl
        | inr other ↦ rw (rest, other) refl
      ]

  AllWait-append :
      (front cs : List (Command d)) (c : Command d)
      → AllWait front cs
      → c.wait ≡ awaited (front ++ cs) (h.node c.node).predecessors
      → AllWait front (cs ++ c ∷ [])
  unfolding AllWait
  AllWait-append front [] c all e = (rw (append-nil front) at e, tt)
  AllWait-append front (b ∷ cs) c (one, all) e =
      (one, AllWait-append (front ++ b ∷ []) cs c all (rw (append_assoc front (b ∷ []) cs) e))

  pub launch-Right : (p : ℕ) (r : Run d) → Right r → Right (launch d h p r)
  unfolding launch
  launch-Right p r right =
      let wait = last_event d (wait_events d h r.node_events (h.node p).predecessors) in
      let c : Command d = record { node = p; wait = wait; completion = d.event p wait } in
      record {
        events = λ id. let old = right.events id in rw (returned-append r.queue c id, old) refl;
        waits =
            AllWait-append [] r.queue c right.waits
              (last_event-awaited r.node_events r.queue (h.node p).predecessors right.events);
      }
