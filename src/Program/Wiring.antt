-- ===== src/Program/Wiring.antt =====
-- cmd/pc/main.go: which modules and which channels the parts have when the program runs.
use lucinda.Base.{List, ℕ, lookup_or, [], ◌∷◌, some, ◌≡◌, true, false}
use lucinda.Messages.{
  EventType, task_ready, task_republished, task_ad_received, task_cv_received, task_done,
  task_assigned, task_preplanned, topic_name,
}
use lucinda.ModuleManager.{ModuleType, list}
use lucinda.ModuleManager.Parts.{
  transport_module, monitor_module, controller_module, postman_module, tracer_module,
  state_manager_module, board_module, executor_module, planner_module, reducer_module,
}
use lucinda.EventBus.{Bus}
use lucinda.Postman.{topic_len}
use lucinda.Postman.Delivery.{Serves}
use lucinda.Transport.Defs.{incoming}
use lucinda.Transport.Sound.{Sound}
use lucinda.Providers.Controller.{Controller}
use lucinda.Board.{new_task_board, task_board_protocol}
use lucinda.Program.Construct.{TaskBoard, TaskExecutor, TaskPlanner, TaskReducer}
use lucinda.Program.Services.{Loop, watches, delivers, beats}
use lucinda.Program.Main.{Program}

-- A channel of a new loop: open, empty, of the usual length, and the only one of its topic.
pub record Listens (topic : EventType) (c : ℕ) (b : Bus) : Type 0 where
  pub serves : Serves topic c b
  pub empty : (b.channels c).buffer ≡ []
  pub capacity : (b.channels c).capacity ≡ topic_len

-- The modules that the parts are made with.
abbrev pub board_of : {P : Type 0} → Controller P → TaskBoard
board_of pc = record {
  tp = transport_module;
  pm = postman_module;
  tt = tracer_module;
  pc = controller_module pc;
  sm = state_manager_module;
  hm = monitor_module;
  state = new_task_board;
}

abbrev pub executor_of : {P : Type 0} → Controller P → TaskExecutor
executor_of pc = record {
  pm = postman_module;
  pc = controller_module pc;
  tp = transport_module;
  tt = tracer_module;
  sm = state_manager_module;
}

abbrev pub planner_of : {P : Type 0} → Controller P → TaskPlanner
planner_of pc = record {
  pm = postman_module;
  sm = state_manager_module;
  pc = controller_module pc;
  tt = tracer_module;
}

abbrev pub reducer_of : {P : Type 0} → Controller P → TaskReducer
reducer_of pc = record {
  pm = postman_module;
  tt = tracer_module;
  sm = state_manager_module;
  pc = controller_module pc;
}

-- The goroutines of the four parts.
abbrev pub started_loops : List Loop
started_loops =
    delivers ModuleType.task_board 0
    ∷ watches ModuleType.task_board task_ready 0
    ∷ watches ModuleType.task_board task_republished 1
    ∷ watches ModuleType.task_board task_ad_received 2
    ∷ watches ModuleType.task_board task_cv_received 3
    ∷ watches ModuleType.task_board task_done 4
    ∷ beats ModuleType.task_board
    ∷ watches ModuleType.task_executor task_assigned 5
    ∷ watches ModuleType.task_planner task_preplanned 6
    ∷ watches ModuleType.task_reducer task_ready 7
    ∷ []

-- What the parts hold and read in a program that runs: every part has the modules that `main` made, the
-- ten modules are registered, the board's protocol is open and delivered, and each handler has a loop
-- on an open channel of its topic, which is the only one of the topic but for task.ready, where the
-- board and the reducer each have one. There is no plan yet, and the
-- transport has a host and its channels are sound.
pub record Wired {P : Type 0} (p : Program P) : Type 0 where
  pub registered :
      list p.registry
      ≡ transport_module
        ∷ monitor_module
        ∷ controller_module p.providers
        ∷ postman_module
        ∷ tracer_module
        ∷ state_manager_module
        ∷ board_module
        ∷ executor_module
        ∷ planner_module
        ∷ reducer_module
        ∷ []
  pub board : p.board ≡ board_of p.providers
  pub executor : p.executor ≡ executor_of p.providers
  pub planner : p.planner ≡ planner_of p.providers
  pub reducer : p.reducer ≡ reducer_of p.providers
  pub loops : p.services.loops ≡ started_loops
  pub no_plans : p.manager.plans ≡ []
  pub protocol : incoming task_board_protocol p.services.transport ≡ some 0
  pub sound : Sound p.services.transport
  pub hosted : p.services.transport.has_host ≡ true
  pub ready : lookup_or [] (topic_name task_ready) p.services.bus.subscribers ≡ 0 ∷ 7 ∷ []
  pub ready_open :
      ((p.services.bus.channels 0).is_closed ≡ false)
      × ((p.services.bus.channels 7).is_closed ≡ false)
  pub republished : Listens task_republished 1 p.services.bus
  pub ad_received : Listens task_ad_received 2 p.services.bus
  pub cv_received : Listens task_cv_received 3 p.services.bus
  pub done : Listens task_done 4 p.services.bus
  pub assigned : Listens task_assigned 5 p.services.bus
  pub preplanned : Listens task_preplanned 6 p.services.bus
