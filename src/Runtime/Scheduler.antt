-- ===== src/Runtime/Scheduler.antt =====
-- `TopologicalScheduler::execute` (src/runtime/scheduler/TopologicalScheduler.cpp) and
-- `ExecutionGraph` (include/fluidloom/runtime/ExecutionGraph.h), which runs its nodes in the order
-- in which they were added.
-- What a node does on the device is a parameter: `ExecutionNode::execute` is virtual, and its
-- OpenCL calls are outside the repository. A call of `execute` puts a command in the queue and returns
-- its event; the commands take effect later, one after the other, as in a queue that is created without
-- the property of running out of order (src/core/backend/OpenCLBackend.cpp, line 79). Timing, logging
-- and the release of events are left out.
pub mod Waits
pub mod Launches
pub mod Reorder
pub mod Serial
use fluidloom.Prelude.{
  ℕ, List, [], ◌∷◌, ◌++◌, Option, none, some, String, Bool, true, ℤ, eqb_ℤ, if◌then◌else◌, Result,
  ok, err, ◌>>=◌,
}
use fluidloom.Runtime.Node.{Heap}
use fluidloom.Runtime.Graph.{DependencyGraph, get_node, get_topological_order}
use fluidloom.Runtime.Graph.Kahn.{GraphError}

-- The fields on the device, the event that `execute` returns for the event it waits for, and the effect
-- of its command on the fields. `none` is a null event.
pub record Device : Type 1 where
  pub Event : Type 0
  pub Value : Type 0
  pub effect : ℕ → (String → Value) → String → Value
  pub event : ℕ → Option Event → Option Event

module _ (d : Device) where
  open d use {Event, Value, effect, event}

  -- A call of `execute`: the node, the event that it waits for, and the event that it returns.
  pub record Command : Type 0 where
    pub node : ℕ
    pub wait : Option Event
    pub completion : Option Event

  -- `node_events`, and the commands in the queue.
  pub record Run : Type 0 where
    pub node_events : ℤ → Option (Option Event)
    pub queue : List Command

  abbrev pub no_events : ℤ → Option (Option Event)
  no_events id = none

  abbrev pub idle : Run
  idle = record { node_events = no_events; queue = [] }

  abbrev pub recorded : Option (Option Event) → List Event
  recorded (some (some e)) = e ∷ []
  recorded found = []

  -- The events of the predecessors that are alive, were executed and gave an event.
  unfoldable pub wait_events : Heap → (ℤ → Option (Option Event)) → List ℕ → List Event
  wait_events h events [] = []
  wait_events h events (p ∷ ps) =
      (if h.alive p then recorded (events (h.node p).node_id) else []) ++ wait_events h events ps

  -- `wait_events.back()`, or `nullptr`.
  unfoldable pub last_event : List Event → Option Event
  last_event [] = none
  last_event (e ∷ []) = some e
  last_event (e ∷ f ∷ es) = last_event (f ∷ es)

  unfoldable pub launch : Heap → ℕ → Run → Run
  launch h p r =
      let wait = last_event (wait_events h r.node_events (h.node p).predecessors) in
      let completion = event p wait in
      record {
        node_events =
            λ id. if eqb_ℤ (h.node p).node_id id then some completion else r.node_events id;
        queue = r.queue ++ record { node = p; wait = wait; completion = completion } ∷ [];
      }

  unfoldable pub execute_order : Heap → DependencyGraph → List ℕ → Run → Result GraphError Run
  execute_order h g [] r = ok r
  execute_order h g (node_idx ∷ rest) r =
      get_node g node_idx >>= λ p. execute_order h g rest (launch h p r)

  unfoldable pub execute : Heap → DependencyGraph → Result GraphError Run
  execute h g = get_topological_order g >>= λ order. execute_order h g order idle

  -- The fields when the queue is done.
  unfoldable pub drain : List Command → (String → Value) → String → Value
  drain [] memory = memory
  drain (c ∷ cs) memory = drain cs (effect c.node memory)

  -- `ExecutionGraph::execute`, over the nodes in the order in which they were added.
  unfoldable pub execute_in_order : List ℕ → (String → Value) → String → Value
  execute_in_order [] memory = memory
  execute_in_order (p ∷ ps) memory = execute_in_order ps (effect p memory)
