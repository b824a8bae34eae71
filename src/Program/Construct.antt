-- ===== src/Program/Construct.antt =====
-- The constructors of the four parts of internal/task_workflow_layer, which take the modules that they
-- work with from the module manager: NewTaskBoard, NewTaskExecutor, NewTaskPlanner, NewTaskReducer.
use lucinda.Base.{Str, lit, [], ◌∷◌, if◌then◌else◌, str_eq}
use lucinda.ModuleManager.{AvailableModule, ModuleManager, ModuleType, type_name, get_by_type}
use lucinda.Board.{Board, new_task_board}

-- How a construction ends: with a value, by log.Fatal with its message, or by the panic of a type
-- assertion.
pub data Outcome {ℓ} (A : Type ℓ) : Type ℓ where
  made : A → Outcome A
  fatal : Str → Outcome A
  panicked : Outcome A

infixl 5 ◌>>=◌
abbrev pub ◌>>=◌ {ℓ κ} : {A : Type ℓ} {B : Type κ} → Outcome A → (A → Outcome B) → Outcome B
made a >>= f = f a
fatal s >>= f = fatal s
panicked >>= f = panicked

-- The assertion that a module is an instance of a part.
unfoldable pub assert_part : ModuleType → AvailableModule → Outcome AvailableModule
unfolding type_name
assert_part part x = if str_eq (type_name x.part) (type_name part) then made x else panicked

-- The first module of a type. It is fatal that there is none.
unfoldable pub first_of : ModuleType → Str → ModuleManager → Outcome AvailableModule
unfolding type_name get_by_type assert_part
first_of part message m = elim (get_by_type (type_name part) m) [
  | [] ↦ fatal message
  | x ∷ rest ↦ assert_part part x
]

pub record TaskBoard : Type 0 where
  pub tp : AvailableModule
  pub pm : AvailableModule
  pub tt : AvailableModule
  pub pc : AvailableModule
  pub sm : AvailableModule
  pub hm : AvailableModule
  pub state : Board

pub record TaskExecutor : Type 0 where
  pub pm : AvailableModule
  pub pc : AvailableModule
  pub tp : AvailableModule
  pub tt : AvailableModule
  pub sm : AvailableModule

pub record TaskPlanner : Type 0 where
  pub pm : AvailableModule
  pub sm : AvailableModule
  pub pc : AvailableModule
  pub tt : AvailableModule

pub record TaskReducer : Type 0 where
  pub pm : AvailableModule
  pub tt : AvailableModule
  pub sm : AvailableModule
  pub pc : AvailableModule

unfoldable pub new_board : ModuleManager → AvailableModule → Outcome TaskBoard
unfolding first_of new_task_board
new_board m sm = do
  pm ← first_of ModuleType.task_postman (lit "taskboard: no TaskPostman module found") m
  tp ← first_of ModuleType.transport (lit "taskboard: no Transport module found") m
  tt ← first_of ModuleType.task_tracer (lit "taskboard: no TaskTracer module found") m
  pc ←
      first_of ModuleType.provider_controller (lit "taskboard: no ProviderController module found")
        m
  hm ← first_of ModuleType.hardware_monitor (lit "taskboard: no HardwareMonitor module found") m
  made (record { tp = tp; pm = pm; tt = tt; pc = pc; sm = sm; hm = hm; state = new_task_board })

unfoldable pub new_executor : ModuleManager → AvailableModule → Outcome TaskExecutor
unfolding first_of
new_executor m sm = do
  pm ← first_of ModuleType.task_postman (lit "executor: no TaskPostman found") m
  tp ← first_of ModuleType.transport (lit "executor: no Transport found") m
  pc ← first_of ModuleType.provider_controller (lit "executor: no ProviderController found") m
  tt ← first_of ModuleType.task_tracer (lit "executor: no TaskTracer found") m
  made (record { pm = pm; pc = pc; tp = tp; tt = tt; sm = sm })

unfoldable pub new_planner : ModuleManager → Outcome TaskPlanner
unfolding first_of
new_planner m = do
  pm ← first_of ModuleType.task_postman (lit "task_planner: no task_postman module found") m
  sm ←
      first_of ModuleType.task_state_manager
        (lit "task_planner: no task_state_manager module found") m
  pc ←
      first_of ModuleType.provider_controller
        (lit "task_planner: no provider_controller module found") m
  tt ← first_of ModuleType.task_tracer (lit "task_planner: no task_tracer") m
  made (record { pm = pm; sm = sm; pc = pc; tt = tt })

unfoldable pub new_reducer : ModuleManager → Outcome TaskReducer
unfolding first_of
new_reducer m = do
  pm ← first_of ModuleType.task_postman (lit "task_reducer: no task_postman") m
  tt ← first_of ModuleType.task_tracer (lit "task_reducer: no task_tracer") m
  sm ← first_of ModuleType.task_state_manager (lit "task_reducer: no task_state_manager") m
  pc ← first_of ModuleType.provider_controller (lit "task_reducer: no provider_controller") m
  made (record { pm = pm; tt = tt; sm = sm; pc = pc })
