-- ===== src/Program/Running.antt =====
-- cmd/pc/main.go: the program that `main` has put together when it waits for a signal.
use lucinda.Base.{Str, lit, ℤ, lookup, str_eq, insert, true, [], ◌∷◌, refl}
use lucinda.ModuleManager.{new_module_manager, register, list}
use lucinda.ModuleManager.Parts.{
  transport_module, monitor_module, controller_module, postman_module, tracer_module,
  state_manager_module, board_module, executor_module, planner_module, reducer_module,
}
use lucinda.EventBus.{new_event_bus}
use lucinda.Transport.Defs.{new_libp2p_transport}
use lucinda.Transport.Sound.{Sound}
use lucinda.Transport.Keeping.{open_protocol-Sound}
use lucinda.Transport.Calls.{new_libp2p_transport-Sound}
use lucinda.Monitor.{Monitor, new_hardware_monitor, collect}
use lucinda.Providers.Controller.{Controller}
use lucinda.Tracer.{new_task_tracer}
use lucinda.StateManager.{new_task_state_manager}
use lucinda.Board.{task_board_protocol}
use lucinda.Program.Services.{Services, start_board, start_executor, start_planner, start_reducer}
use lucinda.UserServer.Listening.{new_listener}
use lucinda.Program.Main.{register_all, Config, Env, Program, get_int}
use lucinda.Program.Wiring.{Wired, board_of, executor_of, planner_of, reducer_of}

module _ {P : Type 0} (env : Env P) where
  -- The monitor behind its first round.
  abbrev pub first_monitor : ℤ → Monitor
  first_monitor n =
      (collect env.floats env.reading (record (new_hardware_monitor n) { is_started = true })).0

  started-Sound :
      (outs ins : ℤ) (id : Str)
      → Sound (record (new_libp2p_transport outs ins) {
        node_id = id;
        has_host = true;
        is_started = true;
      })
  started-Sound outs ins id =
      let s = new_libp2p_transport-Sound outs ins in
      record { once = s.once; live = s.live; known = s.known }

  -- The program that runs, with its configuration, the ID of its host, and its providers.
  abbrev pub program_of : Config → Str → Controller P → Program P
  program_of v id pc =
      let tp =
        new_libp2p_transport (get_int (lit "transport.libp2p.outs_length") v)
          (get_int (lit "transport.libp2p.ins_length") v) in
      let s : Services = record {
        transport = record tp { node_id = id; has_host = true; is_started = true };
        bus = new_event_bus;
        loops = [];
      } in
      let mm =
        register_all
          (transport_module
            ∷ monitor_module
            ∷ controller_module pc
            ∷ postman_module
            ∷ tracer_module
            ∷ state_manager_module
            ∷ [])
          new_module_manager in
      record {
        services = start_reducer (start_planner (start_executor (start_board s)));
        registry =
            register_all (board_module ∷ executor_module ∷ planner_module ∷ reducer_module ∷ []) mm;
        monitor = first_monitor (get_int (lit "hardware_monitor.interval_sec") v);
        providers = pc;
        tracer = new_task_tracer;
        manager = new_task_state_manager env.heap;
        board = board_of pc;
        executor = executor_of pc;
        planner = planner_of pc;
        reducer = reducer_of pc;
        server = new_listener 0;
        port = get_int (lit "http.port") v;
      }

  pub program_of-Wired : (v : Config) (id : Str) (pc : Controller P) → Wired (program_of v id pc)
  unfolding lookup str_eq transport_module monitor_module controller_module postman_module
      tracer_module state_manager_module board_module executor_module planner_module reducer_module
      insert list register start_board start_executor start_planner start_reducer new_module_manager
      new_event_bus new_task_state_manager new_libp2p_transport
  program_of-Wired v id pc = record {
    registered = refl;
    board = refl;
    executor = refl;
    planner = refl;
    reducer = refl;
    loops = refl;
    no_plans = refl;
    protocol = refl;
    sound = open_protocol-Sound task_board_protocol _ (
        started-Sound (get_int (lit "transport.libp2p.outs_length") v)
          (get_int (lit "transport.libp2p.ins_length") v) id);
    hosted = refl;
    ready = refl;
    ready_open = (refl, refl);
    republished = record {
      serves = record { is_open = refl; alone = refl };
      empty = refl;
      capacity = refl;
    };
    ad_received = record {
      serves = record { is_open = refl; alone = refl };
      empty = refl;
      capacity = refl;
    };
    cv_received = record {
      serves = record { is_open = refl; alone = refl };
      empty = refl;
      capacity = refl;
    };
    done = record {
      serves = record { is_open = refl; alone = refl };
      empty = refl;
      capacity = refl;
    };
    assigned = record {
      serves = record { is_open = refl; alone = refl };
      empty = refl;
      capacity = refl;
    };
    preplanned = record {
      serves = record { is_open = refl; alone = refl };
      empty = refl;
      capacity = refl;
    };
  }
