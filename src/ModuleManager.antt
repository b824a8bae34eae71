-- ===== src/ModuleManager.antt =====
-- pkg/infrastructure_layer/module_manager/manager.go and api/v1/registry/module/module.go: the
-- registry of modules and of who may reach whom. An error is `none`, or a constructor of `Error`.
pub mod Grants
pub mod Parts
use lucinda.Base.{
  Str, Map, lookup, lookup_or, insert, delete, ℤ, List, [], ◌∷◌, Option, none, some, Bool, false,
  map, is_some, keep, str_eq, ◌++◌, lit, if◌then◌else◌, pos,
}

pub data ModuleStatus : Type 0 where
  initializing running pending stopped error : ModuleStatus

pub record ModuleHealth : Type 0 where
  pub id : Str
  pub type : Str
  pub status : ModuleStatus
  pub timestamp : ℤ
  pub error_text : Str

-- The type of a module, a string of the source; `other` is any string that has no name.
pub data ModuleType : Type 0 where
  eventbus transport hardware_monitor module_manager provider_controller : ModuleType
  task_postman task_board task_state_manager task_tracer : ModuleType
  task_planner task_reducer task_executor : ModuleType
  other : Str → ModuleType

-- The strings of the named values.
unfoldable pub type_name : ModuleType → Str
type_name eventbus = lit "eventbus"
type_name transport = lit "transport"
type_name hardware_monitor = lit "hardware_monitor"
type_name module_manager = lit "module_manager"
type_name provider_controller = lit "provider_controller"
type_name task_postman = lit "task_postman"
type_name task_board = lit "task_board"
type_name task_state_manager = lit "task_state_manager"
type_name task_tracer = lit "task_tracer"
type_name task_planner = lit "task_planner"
type_name task_reducer = lit "task_reducer"
type_name task_executor = lit "task_executor"
type_name (other s) = s

-- What the methods of a module answer, and the part of the program that its value is an instance of,
-- on which a type assertion depends.
pub record AvailableModule : Type 0 where
  pub part : ModuleType
  pub module_type : Str
  pub module_id : Str
  pub check_health : ModuleHealth

pub data Error : Type 0 where
  already_registered not_registered : Str → Error
  access_denied : Str → Str → Error

-- `capabilities`: for each granter, the set of its grantees.
pub record ModuleManager : Type 0 where
  pub modules : Map AvailableModule
  pub capabilities : Map (Map (Unit {0}))

unfoldable pub new_module_id : Str → Str → Str
new_module_id type name = (type ++ lit "-") ++ name

unfoldable pub new_module_health : Str → Str → ModuleStatus → ModuleHealth
new_module_health id type status = record {
  id = id;
  type = type;
  status = status;
  timestamp = pos 0;
  error_text = [];
}

unfoldable pub new_module_manager : ModuleManager
new_module_manager = record { modules = []; capabilities = [] }

unfoldable pub register : AvailableModule → ModuleManager → ModuleManager × Option Error
register x m = elim (lookup x.module_id m.modules) [
  | some old ↦ (m, some (already_registered x.module_id))
  | none ↦ (record m { modules = insert x.module_id x m.modules }, none)
]

unfoldable pub unregister : Str → ModuleManager → ModuleManager × Option Error
unregister id m = elim (lookup id m.modules) [
  | none ↦ (m, some (not_registered id))
  | some old ↦ (record m { modules = delete id m.modules }, none)
]

unfoldable pub get : Str → ModuleManager → Option AvailableModule
get id m = lookup id m.modules

unfoldable pub get_by_type : Str → ModuleManager → List AvailableModule
get_by_type t m = keep (λ x. str_eq x.module_type t) (map (λ e. e.1) m.modules)

unfoldable pub list : ModuleManager → List AvailableModule
list m = map (λ e. e.1) m.modules

unfoldable pub exists : Str → ModuleManager → Bool
exists id m = is_some (lookup id m.modules)

unfoldable pub grant : Str → Str → ModuleManager → ModuleManager
grant granter grantee m = record m {
  capabilities =
      insert granter (insert grantee tt (lookup_or [] granter m.capabilities)) m.capabilities;
}

unfoldable pub is_granted : Str → Str → ModuleManager → Bool
is_granted granter grantee m = elim (lookup granter m.capabilities) [
  | none ↦ false
  | some grantees ↦ is_some (lookup grantee grantees)
]

-- The module, or the error.
pub data Required : Type 0 where
  gives : AvailableModule → Required
  refuses : Error → Required

unfoldable pub require : AvailableModule → Str → Str → ModuleManager → Required
unfolding is_granted
require caller type id m =
    if is_granted caller.module_type type m
    then elim (lookup id m.modules) [ none ↦ refuses (not_registered id) | some x ↦ gives x ]
    else refuses (access_denied caller.module_type type)

unfoldable pub health : Str → ModuleManager → Option ModuleHealth
unfolding get
health id m = elim (get id m) [ none ↦ none | some x ↦ some x.check_health ]

unfoldable pub health_all : ModuleManager → Map ModuleHealth
health_all m = map (λ e. (e.0, e.1.check_health)) m.modules
