-- ===== src/Lib.antt =====
-- A model of lucinda, a scheduler that splits a user's request into sub-tasks with a language model
-- and shares them out among peers that bid for them, with proofs about it.
--
-- How the program's parts work together. The planner asks a model to decompose a request, makes a plan
-- of the answer, a graph of nodes with a reduce node behind all of them, enters the nodes in the
-- tracer, and hands the plan to the state manager. The state manager keeps each node's state and
-- publishes an event when a node becomes ready. On that event the board advertises the node to the
-- peers, takes their bids, awards the node to a peer, and sends the assignment, over the bus to its
-- own executor or over the transport to another peer. The executor runs the task with a provider and
-- reports its output; the board then completes the node, and the state manager releases the
-- successors. The reducer runs the reduce node, whose completion ends the plan and sends its result.
--
-- Files, and the code that they model:
--   Base            the names all files share: tests on numbers, Go's strings, 64-bit integers, lists,
--                   and Go's maps as association lists
--   Task            api/v1/domain/task
--   Hardware        api/v1/domain/hardware/hardware.go: the snapshots
--   Messages        api/v1/messaging, and the message types of capability/cv.go and node/node.go
--   Capability      api/v1/domain/capability/cv.go: Match
--   Tracer          internal/task_management_layer/task_tracer/tracer.go: TaskTracer
--   StateManager    internal/task_management_layer/task_state_manager/manager.go: Core has the state,
--                   Ingest, Lifecycle (Claim, Start, Failed as fail, Abandon), Complete, Closing
--                   (Dispose and the deadline) and Queries the methods; Graph, Cascade and Schedule
--                   carry the invariant of a plan; Calls has all calls but two as data, for theorems
--                   on any call; Books has the invariant of all plans together, over the loops in
--                   Frames and Footprint, Traces the runs, call by call and timer by timer, and
--                   Finishing a way from any state of a run to the end of a plan; Reports and Reporting count
--                   the results of a plan, OneResult and TimedOut have them over a run; Leases has single
--                   claims, Holding a claim while other calls go on, Endings disposal and the deadline
--   Planner         internal/task_workflow_layer/task_planner/planner.go: Defs has parse, extractJSON
--                   and fallbackPlan, Chat has generate and api/v1/domain/chat/chat.go, Run has plan;
--                   Degrees, Shape, Building, Leaves and Result show that a plan is well formed
--   Board           internal/task_workflow_layer/task_board/board.go: Defs has the methods, Handlers
--                   what Start registers and the heartbeat
--   Executor        internal/task_workflow_layer/task_executor/executor.go: execute
--   Reducer         internal/task_workflow_layer/task_reducer/reducer.go: reduce and parentPlanID
--   EventBus        pkg/infrastructure_layer/eventbus/eventbus.go
--   Postman         internal/task_management_layer/task_postman/postman.go: a round of the loops of Watch
--                   and Deliver; Delivery sets the loop of Watch against a queue
--   UserServer      internal/user_server/server.go and internal/task_wrapper/wrapper.go: the handlers
--                   of /chat and /stream, and Wrap; Listening has the routes, Start and Shutdown
--   Transport       pkg/infrastructure_layer/transport/transporters/host.go: Defs has the methods on the
--                   maps of channels, Workers a round of each goroutine, Dialling Dial and the callback
--                   of mDNS; Sound, Keeping, Removing, Hosting
--                   and Calls have the invariant of the maps and the host, Closing and Stale what breaks it for a goroutine
--   Providers       pkg/infrastructure_layer/provider: Wire has api/v1/domain/provider/provider.go and
--                   the answers of api/v1/domain/chat/chat.go, Vllm and Ollama the drivers, Controller
--                   controller.go and drivers/registry.go, over the interface that Drivers fills
--   Monitor         pkg/infrastructure_layer/hardware_monitor/monitor.go, and SignificantChange of
--                   api/v1/domain/hardware/hardware.go
--   ModuleManager   pkg/infrastructure_layer/module_manager/manager.go, api/v1/registry/module; Parts has
--                   the modules that the parts register
--   Program         cmd/pc/main.go: Construct has the constructors that look up their modules, Services
--                   the loops that Start and Stop of the parts begin and end, Main the configuration,
--                   the start and the shutdown; Wiring says what a running program looks like, Running
--                   and Booting that the start makes one, FirstRequest and Shutdown how it goes on and ends
--   Witnesses       small inputs on which the theorems are applied
--
-- How code becomes definitions. A method is a function from the state of its part to the new state and
-- its error, with `none` for nil; a mutex makes each method one step, and so does a goroutine that
-- waits for a timer: it stands in a list, and a second function says what it does when it runs. Nodes
-- are shared through pointers: they live on a heap, so that a write by the state manager is seen in
-- the plan and in every map. What the task layers send, on the bus, over the transport or on a channel, is
-- appended to a list; the bus and the transport have models of their own, in which a channel is a
-- buffer at an address and a panic is a missing result, and Board/Network runs a message through both
-- to a handler. A loop over a map goes through the association list in its order, which stands
-- for any order, as nothing is assumed of it. `sort.Slice` is an insertion sort.
--
-- Bounds and fuel. A Go int and int64 are integers, and what is computed on them wraps at 64 bits as
-- written in Base.Ints. The theorems that count edges have as a hypothesis that there are fewer than
-- 2 ^ 63 of them. Every loop is structural recursion, so that no fuel is needed.
--
-- Parameters. json.Unmarshal and the other uses of JSON, the HTTP client, the answers of a provider,
-- the peers and streams of libp2p, the hardware readings, the arithmetic of floats, the clock, and the
-- texts that Sprintf builds around a request or an ID are arguments. The clock is read once in a step.
-- The provider list of the executor is read once, in one order.
--
-- Not modelled: logging, the cancellation of contexts, and what net/http, libp2p and mDNS do between
-- the calls that the program makes of them.
pub mod Base
pub mod Task
pub mod Hardware
pub mod Messages
pub mod Capability
pub mod Tracer
pub mod StateManager
pub mod Board
pub mod Planner
pub mod ModuleManager
pub mod Executor
pub mod Reducer
pub mod Transport
pub mod Postman
pub mod UserServer
pub mod Monitor
pub mod Program
pub mod Providers
pub mod EventBus
pub mod Witnesses
