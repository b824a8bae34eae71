-- ===== src/Program/Main.antt =====
-- cmd/pc/main.go: the configuration, the construction and the start of all parts, and the shutdown. The
-- configuration file, the drivers of providers, the host of libp2p and the readings of the machine are
-- parameters.
use lucinda.Base.{Str, lit, Map, lookup, insert, ℤ, pos, List, [], ◌∷◌, Option, none, some, Bool}
use lucinda.Messages.{hardware, hardware_changed}
use lucinda.Hardware.{HardwareSnapshot}
use lucinda.ModuleManager.{AvailableModule, ModuleManager, ModuleType, new_module_manager, register}
use lucinda.ModuleManager.Parts.{
  transport_module, monitor_module, controller_module, postman_module, tracer_module,
  state_manager_module, board_module, executor_module, planner_module, reducer_module,
}
use lucinda.EventBus.{Bus, new_event_bus}
use lucinda.Postman.{publish, new_event}
use lucinda.Transport.Defs
use lucinda.Transport.Defs.{Transport, new_libp2p_transport}
use lucinda.Monitor
use lucinda.Monitor.{FloatOps, Reading, Monitor, new_hardware_monitor, polls, fails, panics}
use lucinda.Providers.Wire.{ProviderConfig}
use lucinda.Providers.Controller.{Registry, Controller, new_provider_controller, load_providers}
use lucinda.Tracer.{Tracer, new_task_tracer}
use lucinda.Task.{Heap}
use lucinda.UserServer.Listening.{Listener, new_listener}
use lucinda.StateManager.{Manager, new_task_state_manager}
use lucinda.Program.Construct.{
  Outcome, made, fatal, panicked, ◌>>=◌, TaskBoard, TaskExecutor, TaskPlanner, TaskReducer,
  new_board, new_executor, new_planner, new_reducer,
}
use lucinda.Program.Services.{
  Services, start_board, start_executor, start_planner, start_reducer, stop_part, stop_postman,
}

-- What the configuration file holds: numbers at keys, and the providers.
pub record Config : Type 0 where
  pub numbers : Map ℤ
  pub providers : List ProviderConfig

-- `SetDefault`: a key that the file has keeps its value.
abbrev set_default : Str → ℤ → Config → Config
set_default key n v = elim (lookup key v.numbers) [
  | some m ↦ v
  | none ↦ record v { numbers = insert key n v.numbers }
]

-- `GetInt`
abbrev pub get_int : Str → Config → ℤ
get_int key v = elim (lookup key v.numbers) [ none ↦ pos 0 | some n ↦ n ]

-- The file, if there is one and it can be read.
unfoldable pub load_config : Option Config → Outcome Config
load_config none = fatal (lit "config: read config")
load_config (some v) =
    let v₁ = set_default (lit "http.port") (pos 9090) v in
    let v₂ = set_default (lit "hardware_monitor.interval_sec") (pos 5) v₁ in
    let v₃ = set_default (lit "transport.libp2p.outs_length") (pos 20) v₂ in
    made (set_default (lit "transport.libp2p.ins_length") (pos 100) v₃)

-- What is outside of the program: the drivers, the ID of the host that libp2p makes, if it makes one,
-- the machine, and the memory.
pub record Env (P : Type 0) : Type 0 where
  pub drivers : Registry P
  pub host : Option Str
  pub floats : FloatOps
  pub reading : Reading
  pub heap : Heap

pub record Program (P : Type 0) : Type 0 where
  pub services : Services
  pub registry : ModuleManager
  pub monitor : Monitor
  pub providers : Controller P
  pub tracer : Tracer
  pub manager : Manager
  pub board : TaskBoard
  pub executor : TaskExecutor
  pub planner : TaskPlanner
  pub reducer : TaskReducer
  -- A goroutine of `main` starts the server at the port.
  pub server : Listener
  pub port : ℤ

-- `RegisterWithManager` of some parts, in turn. The errors are passed over.
abbrev pub register_all : List AvailableModule → ModuleManager → ModuleManager
register_all [] m = m
register_all (x ∷ rest) m = register_all rest (register x m).0

module _ {P : Type 0} (env : Env P) where
  unfoldable pub loaded : Config → Outcome (Controller P)
  unfolding load_providers new_provider_controller
  loaded v =
      let (pc, err) = load_providers env.drivers v.providers new_provider_controller in
      elim err [ none ↦ made pc | some e ↦ fatal (lit "load providers") ]

  unfoldable pub started_transport : Transport → Outcome Transport
  unfolding Defs.start
  started_transport t =
      let (t', err) = Defs.start env.host t in
      elim err [ none ↦ made t' | some e ↦ fatal (lit "transport") ]

  -- The monitor publishes its first reading, if that is a change.
  unfoldable pub announced : Option HardwareSnapshot → Bus → Outcome Bus
  unfolding publish new_event
  announced none b = made b
  announced (some snap) b =
      elim (publish hardware_changed (new_event hardware_changed (hardware snap)) b) [
        | none ↦ panicked
        | some b' ↦ made b'
      ]

  unfoldable pub started_monitor : Monitor → Bus → Outcome (Monitor × Bus)
  unfolding Monitor.start announced
  started_monitor m b =
      let ((m', snap), end) = Monitor.start env.floats env.reading m in
      announced snap b >>= λ b'. elim end [
        | polls ↦ made (m', b')
        | fails e ↦ fatal (lit "monitor")
        | panics ↦ panicked
      ]

  -- `main`, until it waits for a signal.
  unfoldable pub boot : Option Config → Outcome (Program P)
  unfolding load_config loaded started_transport started_monitor new_event_bus new_module_manager
      new_libp2p_transport new_listener new_hardware_monitor new_task_tracer new_task_state_manager
      transport_module monitor_module controller_module postman_module tracer_module
      state_manager_module board_module executor_module planner_module reducer_module register
      new_board new_executor new_planner new_reducer start_board start_executor start_planner
      start_reducer
  boot file = do
    v ← load_config file
    let tp =
        new_libp2p_transport (get_int (lit "transport.libp2p.outs_length") v)
          (get_int (lit "transport.libp2p.ins_length") v)
    let hm = new_hardware_monitor (get_int (lit "hardware_monitor.interval_sec") v)
    pc ← loaded v
    let mm =
        register_all
          (transport_module
            ∷ monitor_module
            ∷ controller_module pc
            ∷ postman_module
            ∷ tracer_module
            ∷ state_manager_module
            ∷ [])
          new_module_manager
    tb ← new_board mm state_manager_module
    te ← new_executor mm state_manager_module
    planner ← new_planner mm
    reducer ← new_reducer mm
    let mm' =
        register_all (board_module ∷ executor_module ∷ planner_module ∷ reducer_module ∷ []) mm
    tp' ← started_transport tp
    m ← started_monitor hm new_event_bus
    let s : Services = record { transport = tp'; bus = m.1; loops = [] }
    made (record {
      services = start_reducer (start_planner (start_executor (start_board s)));
      registry = mm';
      monitor = m.0;
      providers = pc;
      tracer = new_task_tracer;
      manager = new_task_state_manager env.heap;
      board = tb;
      executor = te;
      planner = planner;
      reducer = reducer;
      server = new_listener 0;
      port = get_int (lit "http.port") v;
    })

-- The rest of `main`, after the signal. The signal has cancelled the context of `main`, at which the
-- transport stops itself too: of the two calls of `Stop`, in whatever order, the second finds it
-- stopped. `Shutdown` of the HTTP server leaves the program's own state alone. `none` is a panic, or a
-- wait of the postman that does not end; `handlers_return` is whether the handlers that run in loops of
-- `Watch` all return.
unfoldable pub shut_down : {P : Type 0} → Bool → Program P → Option (Program P)
unfolding stop_part stop_postman Monitor.stop Defs.stop
shut_down handlers_return p =
    let l₁ = stop_part ModuleType.task_executor p.services.loops in
    let l₂ = stop_part ModuleType.task_reducer l₁ in
    let l₃ = stop_part ModuleType.task_planner l₂ in
    let l₄ = stop_part ModuleType.task_board l₃ in
    let m = (Monitor.stop p.monitor).0 in
    elim (Defs.stop p.services.transport) [
      | none ↦ none
      | some (t, err) ↦ elim (Defs.stop t) [
        | none ↦ none
        | some (t', err') ↦ elim (stop_postman handlers_return l₄) [
          | none ↦ none
          | some l ↦
              some (record p {
                services = record p.services { transport = t'; loops = l };
                monitor = m;
              })
        ]
      ]
    ]
