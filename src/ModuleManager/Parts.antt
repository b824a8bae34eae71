-- ===== src/ModuleManager/Parts.antt =====
-- The methods GetModuleType, GetModuleID and CheckHealth that each part of the program has, as the
-- module manager sees them: one module for each part. All are running but the provider controller,
-- whose health depends on its providers.
use lucinda.Base.{Str, lit}
use lucinda.ModuleManager.{
  AvailableModule, ModuleStatus, ModuleType, new_module_health, new_module_id, type_name,
}
use lucinda.Providers.Controller.{Controller, check_health}

-- The module of a part whose ID has this name.
abbrev module_of : ModuleType → Str → ModuleStatus → AvailableModule
module_of part name status =
    let id = new_module_id (type_name part) name in
    record {
      part = part;
      module_type = type_name part;
      module_id = id;
      check_health = new_module_health id (type_name part) status;
    }

unfoldable pub transport_module : AvailableModule
unfolding new_module_id new_module_health type_name
transport_module = module_of ModuleType.transport (lit "libp2p") ModuleStatus.running

unfoldable pub monitor_module : AvailableModule
unfolding new_module_id new_module_health type_name
monitor_module = module_of ModuleType.hardware_monitor (lit "default") ModuleStatus.running

unfoldable pub controller_module : {P : Type 0} → Controller P → AvailableModule
unfolding new_module_id new_module_health type_name check_health
controller_module c = module_of ModuleType.provider_controller (lit "default") (check_health c)

unfoldable pub postman_module : AvailableModule
unfolding new_module_id new_module_health type_name
postman_module = module_of ModuleType.task_postman (lit "default") ModuleStatus.running

unfoldable pub tracer_module : AvailableModule
unfolding new_module_id new_module_health type_name
tracer_module = module_of ModuleType.task_tracer (lit "default") ModuleStatus.running

unfoldable pub state_manager_module : AvailableModule
unfolding new_module_id new_module_health type_name
state_manager_module = module_of ModuleType.task_state_manager (lit "default") ModuleStatus.running

unfoldable pub board_module : AvailableModule
unfolding new_module_id new_module_health type_name
board_module = module_of ModuleType.task_board (lit "default") ModuleStatus.running

unfoldable pub executor_module : AvailableModule
unfolding new_module_id new_module_health type_name
executor_module = module_of ModuleType.task_executor (lit "default") ModuleStatus.running

unfoldable pub planner_module : AvailableModule
unfolding new_module_id new_module_health type_name
planner_module = module_of ModuleType.task_planner (lit "default") ModuleStatus.running

unfoldable pub reducer_module : AvailableModule
unfolding new_module_id new_module_health type_name
reducer_module = module_of ModuleType.task_reducer (lit "default") ModuleStatus.running
