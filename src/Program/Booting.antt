-- ===== src/Program/Booting.antt =====
-- cmd/pc/main.go: that the program comes up, and every constructor finds its modules.
use lucinda.Base.{
  Str, lit, ℤ, pos, leb_ℤ, lookup, str_eq, insert, true, Option, none, some, ◌≡◌, refl, ap, false,
}
use lucinda.Hardware.{HardwareSnapshot}
use lucinda.ModuleManager.{type_name, get_by_type}
use lucinda.ModuleManager.Parts.{
  transport_module, monitor_module, controller_module, postman_module, tracer_module,
  state_manager_module, board_module, executor_module, planner_module, reducer_module,
}
use lucinda.EventBus.{new_event_bus}
use lucinda.Transport.Defs
use lucinda.Transport.Defs.{Transport, new_libp2p_transport, incoming}
use lucinda.Monitor
use lucinda.Monitor.{Monitor, new_hardware_monitor, collect, period}
use lucinda.Providers.Controller.{Controller, new_provider_controller, load_providers}
use lucinda.Program.Construct.{
  made, ◌>>=◌, new_board, new_executor, new_planner, new_reducer, first_of, assert_part,
}
use lucinda.Program.Main.{
  Config, Env, get_int, load_config, loaded, started_transport, announced, started_monitor, boot,
}
use lucinda.Program.Wiring.{Wired}
use lucinda.Program.Running.{first_monitor, program_of, program_of-Wired}

module _ {P : Type 0} (env : Env P) where
  announced_fresh :
      (snap : Option HardwareSnapshot) → announced env snap new_event_bus ≡ made new_event_bus
  unfolding announced new_event_bus lookup
  announced_fresh none = refl
  announced_fresh (some snap) = refl

  loaded_lem :
      (v : Config) (pc : Controller P)
      → load_providers env.drivers v.providers new_provider_controller ≡ (pc, none)
      → loaded env v ≡ made pc
  unfolding loaded
  loaded_lem v pc loads = rw (loaded, loads) (ap (λ r. made r.0) loads)

  started_transport_lem :
      (t : Transport) (id : Str)
      → t.is_started ≡ false
      → env.host ≡ some id
      → started_transport env t
        ≡ made (record t { node_id = id; has_host = true; is_started = true })
  unfolding started_transport Defs.start
  started_transport_lem t id idle host = rw (host, idle) refl

  started_monitor_lem :
      (n : ℤ)
      → leb_ℤ (period n) (pos 0) ≡ false
      → started_monitor env (new_hardware_monitor n) new_event_bus
        ≡ made (first_monitor env n, new_event_bus)
  unfolding started_monitor Monitor.start new_hardware_monitor
  started_monitor_lem n positive =
      rw (started_monitor, Monitor.start, announced_fresh _, positive) refl

  -- Where the configuration can be read, every provider of it can be made, libp2p makes a host, and the
  -- monitor's interval is positive as an int64 of nanoseconds, `main` comes to the point where it waits
  -- for a signal, with no log.Fatal and no panic, and the program that then runs is wired.
  pub boot_wires :
      (file : Option Config) (v : Config) (id : Str) (pc : Controller P)
      → load_config file ≡ made v
      → load_providers env.drivers v.providers new_provider_controller ≡ (pc, none)
      → env.host ≡ some id
      → leb_ℤ (period (get_int (lit "hardware_monitor.interval_sec") v)) (pos 0) ≡ false
      → (boot env file ≡ made (program_of env v id pc)) × Wired (program_of env v id pc)
  unfolding boot new_board new_executor new_planner new_reducer first_of assert_part get_by_type
      lookup str_eq type_name transport_module monitor_module controller_module postman_module
      tracer_module state_manager_module board_module executor_module planner_module reducer_module
      new_libp2p_transport insert
  boot_wires file v id pc read loads host positive =
      let n = get_int (lit "hardware_monitor.interval_sec") v in
      let tp =
        new_libp2p_transport (get_int (lit "transport.libp2p.outs_length") v)
          (get_int (lit "transport.libp2p.ins_length") v) in
      (
        rw
            (
              boot,
              read,
              ◌>>=◌,
              loaded_lem v pc loads,
              started_transport_lem tp id refl host,
              started_monitor_lem n positive,
            )
            refl,
        program_of-Wired env v id pc,
      )
