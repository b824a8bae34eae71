-- ===== src/Task.antt =====
-- api/v1/domain/task: tasks, plans, sub-task nodes and their lifecycle states
-- (task.go, task_spec.go, task_plan.go, task_ad.go).
use lucinda.Base.{ℕ, Str, Map, ℤ, pos, List, [], Option, Bool, true, false}

-- `Stage`, a string type with three named values; `unstaged` is "".
pub data Stage : Type 0 where
  unstaged planning execute reduce : Stage

abbrev pub is_reduce : Stage → Bool
is_reduce reduce = true
is_reduce _ = false

pub record TaskSpec : Type 0 where
  pub prompt : Str
  pub model : Str
  pub output : Str
  pub min_vram : ℤ
  pub budget_tokens : ℤ
  pub tools : List Str
  pub labels : List Str
  pub priority : ℤ
  pub stage : Stage
  pub deadline : ℤ
  pub created_at : ℤ

-- The zero value of `TaskSpec`, which a composite literal starts from.
abbrev pub zero_spec : TaskSpec
zero_spec = record {
  prompt = [];
  model = [];
  output = [];
  min_vram = pos 0;
  budget_tokens = pos 0;
  tools = [];
  labels = [];
  priority = pos 0;
  stage = Stage.unstaged;
  deadline = pos 0;
  created_at = pos 0;
}

-- `NodeState`; `unset` is "", the state of a node that no manager has ingested.
pub data NodeState : Type 0 where
  unset pending ready claimed running done failed disposed : NodeState

pub record TaskNode : Type 0 where
  pub id : Str
  pub spec : TaskSpec
  pub state : NodeState
  pub claimed_by : Str
  pub expires_at : ℤ

pub data PlanStatus : Type 0 where
  plan_ok plan_error plan_timeout plan_cancelled : PlanStatus

pub record PlanResult : Type 0 where
  pub status : PlanStatus
  pub text : Str

-- `*TaskNode` is an address on the heap below; a channel is a number, and `nil` is `none`.
abbrev pub Addr : Type 0
Addr = ℕ

abbrev pub Chan : Type 0
Chan = ℕ

-- `deadline` is `none` for the zero `time.Time`; times are in nanoseconds.
pub record TaskPlan : Type 0 where
  pub id : Str
  pub owner : Str
  pub roots : List Str
  pub nodes : Map Addr
  pub successors : Map (List Str)
  pub predecessor_nums : Map ℤ
  pub deadline : Option ℤ
  pub created_at : ℤ
  pub notify : Option Chan

pub record TaskMeta : Type 0 where
  pub id : Str
  pub type : Stage
  pub owner : Str

-- The `TaskPlan` of a task is read for its `Notify` channel only, and its `TaskNode` never:
-- `task_plan` is `none` where the pointer is `nil`, and else holds that channel.
pub record Task : Type 0 where
  pub meta : TaskMeta
  pub spec : TaskSpec
  pub task_plan : Option (Option Chan)

pub record TaskAd : Type 0 where
  pub id : Str
  pub owner : Str
  pub spec : TaskSpec

unfoldable pub task_to_task_ad : Task → TaskAd
task_to_task_ad task = record {
  id = task.meta.id;
  owner = task.meta.owner;
  spec = record spec { prompt = [] };
}
  where
    open task use {spec}

-- The nodes that pointers lead to. A write through a pointer is seen through every other.
abbrev pub Heap : Type 0
Heap = Addr → TaskNode
