-- ===== src/Lib.antt =====
-- FluidLoom: the parts of the runtime that plan and run a simulation step, the Hilbert codec,
-- the adaptation of the mesh, the symbol table of the parser, the field manager, the layout and owners of the halo and the migration
-- plan of the load balancer.
--
-- The runtime (src/runtime, include/fluidloom/runtime) holds a simulation step as a vector of
-- execution nodes that declare the fields they read and write. HazardAnalyzer compares the nodes in
-- pairs and adds an edge for each hazard, DependencyGraph indexes the nodes, builds adjacency lists
-- from those edges, sorts the nodes with Kahn's algorithm and checks the result for cycles, and
-- TopologicalScheduler executes the nodes in that order.
--
-- The adaptation (src/adaptation, include/fluidloom/adaptation) changes the mesh of cells between
-- steps. AdaptationEngine::adapt lets BalanceEnforcer raise the refine flags until neighbours differ by
-- one level, SplitEngine replace flagged cells by their children, MergeEngine replace octets of cells
-- by their parent, and then rebuilds the buffers on the device.
--
-- Files:
--   Prelude          shared notation and lemmas: Boolean tests, lists, counting, integers, results,
--                    dictionaries.
--   Runtime.Node     ExecutionNode (nodes/ExecutionNode) and the heap of shared nodes: a pointer is
--                    an address, a weak pointer can be locked where `alive` holds.
--   Runtime.Tracker  FieldVersionTracker. Refines compares it with a counter for one field, Counts
--                    counts the writes.
--   Runtime.Hazards  HazardAnalyzer. Fields and Levels have the loops, Exact and Enforce the two
--                    operations.
--   Runtime.Graph    DependencyGraph. Build has buildAdjacencyLists, Kahn computeTopologicalOrder,
--                    Cycles hasCycles, Valid the constructor.
--   Runtime.Plan     analyzeNodes, enforceHazards and the graph's constructor, one after the other.
--   Runtime.Scheduler  TopologicalScheduler::execute and ExecutionGraph::execute. What a node does
--                    on the device is a parameter; its commands take effect in the order of the
--                    queue, which OpenCLBackend creates without out-of-order execution. Waits is
--                    about the events that they wait for; Reorder has the argument that a schedule
--                    may exchange nodes that do not conflict, Serial applies it.
--   Runtime.Passes   LevelAwareSorter::insertLevelBarriers and HaloInserter::insertHaloExchanges, on a
--                    heap that gives out new addresses.
--   Hilbert          the codec of core/hilbert/HilbertCodec. Digits is the index as a number in
--                    base 8, Shifts, Encode, RoundTrip and Onto relate the loops to it. Coord has
--                    CellCoord (core/hilbert/CellCoord), the tree of the cells.
--   Adaptation.Curve  hilbert_encode_3d and hilbert_decode_3d (core/hilbert/HilbertCodec3D); Inverts has
--                    the round trip, Morton the order that the index gives.
--   Adaptation.Cell  CellDescriptor; Octet is about its children.
--   Adaptation.Probing  buildHashTable, the host's hash table of the cells. Walk follows the probing,
--                    Sizes the size of the table, Filled the loop over the cells.
--   Adaptation.Balance  BalanceEnforcer::enforce with the kernels of balance_enforce.cl; Detect has the
--                    search for violations.
--   Adaptation.Split, Adaptation.Merge  SplitEngine::split and MergeEngine::merge with their kernels.
--                    Octants says which children a split makes, in arithmetic of the coordinates.
--   Adaptation.Scan  AdaptationEngine::exclusiveScan with its kernels; Sweeps is about the two sweeps
--                    of a work group, Sums about the whole scan.
--   Adaptation.Rebuild  compactAndRebuild, compactAndRebuildGPU and resizeBuffers. Compact is about the
--                    device, Survivors, Pushed and Agree compare it with the host.
--   Adaptation.Engine  AdaptationEngine::adapt.
--   Parsing.SymbolTable  the symbol table (parsing/symbol_table/SymbolTable). A pointer to a scope is
--                    an index; Stack and Refines compare it with a stack of dictionaries.
--   Parsing.Semantic  SemanticAnalyzer (parsing/semantic/SemanticAnalyzer), on the symbol table and the
--                    registry of fields; Accepts is about its errors, Binds and Bound about its table.
--   Fields           FieldDescriptor and SOAFieldManager (core/fields), and FieldRegistry
--                    (core/registry). The backend is a parameter; ById has the map from ids, Sound,
--                    Calls and Queries what holds of the fields.
--   Devices.Mock     MockBackend (core/backend/MockBackend): the life cycle, the allocation and the
--                    copies; Ledger is about the bytes that it counts, Copies about what is copied.
--   Halo.Layout      PackBufferLayout (include/fluidloom/halo/PackBufferLayout.h); Packed and Places
--                    say where its fields and cells lie.
--   Halo.Ghosts      GhostRangeBuilder (halo/GhostRangeBuilder); what MPI returns is a parameter.
--   LoadBalance.Migration  MigrationPlan (include/fluidloom/load_balance/MigrationPlan.h), its validity
--                    and optimisation; the sorted list is a parameter.
--   LoadBalance.Balancer  LoadBalancer (load_balance/LoadBalancer) and the plan of RebalanceMeshNode;
--                    Leaves and Plans say what a plan moves. The estimates in doubles are parameters.
--   Tests            concrete inputs.
--
-- Numbers are the native ones; a machine word keeps its wrap-around. Kahn's loop runs on as much
-- fuel as the graph has nodes, since each round outputs another node; the depth-first search on as
-- many nested calls, since each call marks another node; the lookup of a symbol on as much as there
-- are scopes, since a scope was made after its parent; the doubling of the size of a hash table on 64,
-- since a 64-bit word has 64 doublings; the sweeps of a scan on 9, since a group of 256 has 8 steps;
-- the probing on as much as there are slots, as in the source.
-- Parallel buffers of one object each are a list of records; the threads of a launch that write to
-- places of their own run one after the other, those that share places in an order that is a
-- parameter. A `size_t` that counts elements of a vector in memory does not wrap.
--
-- Not modelled: the compilation of kernels, printing, logging, timing, OpenCL and MPI calls,
-- floating-point values and what is computed of them (geometry, interpolation, the imbalance of a
-- load), the parser that ANTLR generates, and CellMigrator, which uses operations of its buffers that
-- are not declared. Nor are modelled the generator of OpenCL text, the registries of constants and
-- lattices, the exchange of halos, the chain of events, the hash table, sort and compaction of the
-- core.
pub mod Prelude
pub mod Runtime
pub mod Hilbert
pub mod Adaptation
pub mod Parsing
pub mod Fields
pub mod Devices
pub mod Halo
pub mod LoadBalance
pub mod Tests
