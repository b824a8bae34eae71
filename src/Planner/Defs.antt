-- ===== src/Planner/Defs.antt =====
-- internal/task_workflow_layer/task_planner/planner.go: from the model's answer to a plan. Nodes are
-- allocated on the heap from the address `next` on.
use lucinda.Base.{
  ℕ, ◌+◌, ◌-◌, Str, Map, lookup_or, insert, lit, ℤ, pos, add64, List, [], ◌∷◌, ◌++◌, Option, none,
  some, ◌==◌, ◌&&◌, if◌then◌else◌, length,
}
use lucinda.Task.{TaskSpec, zero_spec, TaskPlan, NodeState, Stage, Addr, Heap}
use lucinda.StateManager.{write}
use lucinda.Capability.{is_empty}

-- An entry of `rawPlan.Nodes`.
pub record RawNode : Type 0 where
  pub id : Str
  pub prompt : Str
  pub tools : List Str
  pub labels : List Str
  pub deps : List Str

-- `strings.Index(raw, "{")`: the text from the first brace on.
unfoldable pub from_brace : Str → Option Str
from_brace [] = none
from_brace (c ∷ s) = if c == b'{' then some (c ∷ s) else from_brace s

abbrev pub next_depth : ℕ → ℕ → ℕ
next_depth c depth = if c == b'{' then depth + 1 else if c == b'}' then depth - 1 else depth

abbrev pub cons_some : ℕ → Option Str → Option Str
cons_some c none = none
cons_some c (some s) = some (c ∷ s)

-- The loop that counts braces: the text up to and with the closing brace at which the depth is 0.
-- It starts on a "{", so the depth is not 0 before a "}".
unfoldable pub scan : ℕ → Str → Option Str
scan depth [] = none
scan depth (c ∷ s) =
    let rest = scan (next_depth c depth) s in
    if c == b'}' && next_depth c depth == 0 then some (c ∷ []) else cons_some c rest

unfoldable pub extract_json : Str → Str
unfolding from_brace scan
extract_json raw = elim (from_brace raw) [
  | none ↦ raw
  | some s ↦ elim (scan 0 s) [ none ↦ raw | some object ↦ object ]
]

-- string(planID) + "-" + id
abbrev pub node_id : Str → Str → Str
node_id plan_id id = (plan_id ++ lit "-") ++ id

-- What the loops of `parse` build.
pub record Draft : Type 0 where
  pub heap : Heap
  pub next : Addr
  pub nodes : Map Addr
  pub successors : Map (List Str)
  pub predecessor_nums : Map ℤ
  pub roots : List Str

-- `&TaskNode{ID: id, Spec: spec}`, stored under its ID.
unfoldable pub new_node : Str → TaskSpec → Draft → Draft
unfolding write
new_node id spec d = record d {
  heap =
      write d.next
        (record {
          id = id;
          spec = spec;
          state = NodeState.unset;
          claimed_by = [];
          expires_at = pos 0;
        })
        d.heap;
  next = d.next + 1;
  nodes = insert id d.next d.nodes;
}

abbrev pub raw_spec : RawNode → TaskSpec
raw_spec n = record zero_spec {
  prompt = n.prompt;
  tools = n.tools;
  labels = n.labels;
  budget_tokens = pos 500;
}

-- One round of the first loop.
unfoldable pub add_node : Str → RawNode → Draft → Draft
unfolding new_node
add_node plan_id n d =
    let id = node_id plan_id n.id in
    let d' = new_node id (raw_spec n) d in
    if is_empty n.deps
    then record d' {
      roots = d'.roots ++ id ∷ [];
      predecessor_nums = insert id (pos 0) d'.predecessor_nums;
    }
    else d'

unfoldable pub add_nodes : Str → List RawNode → Draft → Draft
unfolding add_node
add_nodes plan_id [] d = d
add_nodes plan_id (n ∷ rest) d = add_nodes plan_id rest (add_node plan_id n d)

abbrev pub append_successor : Str → Str → Map (List Str) → Map (List Str)
append_successor source target g = insert source (lookup_or [] source g ++ target ∷ []) g

-- One dependency: an edge from it, and one more predecessor.
abbrev pub add_dep : Str → Str → Str → Draft → Draft
add_dep plan_id id dep d = record d {
  successors = append_successor (node_id plan_id dep) id d.successors;
  predecessor_nums =
      insert id (add64 (lookup_or (pos 0) id d.predecessor_nums) (pos 1)) d.predecessor_nums;
}

-- The inner loop of the second: the dependencies of one node.
unfoldable pub add_deps : Str → Str → List Str → Draft → Draft
add_deps plan_id id [] d = d
add_deps plan_id id (dep ∷ rest) d = add_deps plan_id id rest (add_dep plan_id id dep d)

unfoldable pub link : Str → List RawNode → Draft → Draft
unfolding add_deps
link plan_id [] d = d
link plan_id (n ∷ rest) d = link plan_id rest (add_deps plan_id (node_id plan_id n.id) n.deps d)

-- The loop that collects the nodes with no successors.
unfoldable pub leaves : Map (List Str) → Map Addr → List Str
leaves g [] = []
leaves g ((id, a) ∷ rest) =
    let others = leaves g rest in if is_empty (lookup_or [] id g) then id ∷ others else others

unfoldable pub add_edges_to : Str → List Str → Map (List Str) → Map (List Str)
add_edges_to target [] g = g
add_edges_to target (leaf ∷ rest) g = add_edges_to target rest (append_successor leaf target g)

abbrev pub reduce_id : Str → Str
reduce_id plan_id = node_id plan_id (lit "reduce")

unfoldable pub reduce_spec : TaskSpec
reduce_spec = record zero_spec {
  prompt = lit "Combine all results into a single final response";
  budget_tokens = pos 1000;
  labels = lit "cpu" ∷ [];
  stage = Stage.reduce;
}

-- The reduce node behind every leaf.
unfoldable pub add_reduce : Str → Draft → Draft
unfolding new_node leaves add_edges_to reduce_spec
add_reduce plan_id d =
    let id = reduce_id plan_id in
    let ends = leaves d.successors d.nodes in
    let d' = new_node id reduce_spec d in
    record d' {
      successors = add_edges_to id ends d'.successors;
      predecessor_nums = insert id (pos (length ends)) d'.predecessor_nums;
    }

abbrev pub empty_draft : Heap → Addr → Draft
empty_draft h next = record {
  heap = h;
  next = next;
  nodes = [];
  successors = [];
  predecessor_nums = [];
  roots = [];
}

unfoldable pub draft_of : Str → List RawNode → Heap → Addr → Draft
unfolding add_nodes link add_reduce
draft_of plan_id raw h next =
    add_reduce plan_id (link plan_id raw (add_nodes plan_id raw (empty_draft h next)))

-- Five minutes from `now`, in nanoseconds; `time.Now` is read once for both times.
abbrev pub plan_of_draft : Str → Str → ℤ → Draft → TaskPlan
plan_of_draft plan_id owner now d = record {
  id = plan_id;
  owner = owner;
  roots = d.roots;
  nodes = d.nodes;
  successors = d.successors;
  predecessor_nums = d.predecessor_nums;
  deadline = some (add64 now (pos 300000000000));
  created_at = now;
  notify = none;
}

unfoldable pub fallback_draft : Str → Str → Heap → Addr → Draft
unfolding new_node
fallback_draft plan_id prompt h next =
    let id = node_id plan_id (lit "single") in
    let d =
      new_node id (record zero_spec { prompt = prompt; budget_tokens = pos 500 })
        (empty_draft h next) in
    record d { roots = id ∷ []; predecessor_nums = (id, pos 0) ∷ [] }

-- `parse`. `unmarshal` is `json.Unmarshal` into `rawPlan`, `none` where it fails.
unfoldable pub parse : (Str → Option (List RawNode)) → Str → Str → Heap → Addr → Draft
unfolding extract_json draft_of fallback_draft
parse unmarshal plan_id raw h next = elim (unmarshal (extract_json raw)) [
  | none ↦ fallback_draft plan_id raw h next
  | some nodes ↦ draft_of plan_id nodes h next
]
