-- ===== src/Board/Defs.antt =====
-- internal/task_workflow_layer/task_board/board.go: the board's own maps, and the world that its
-- handlers act on: the tracer, the state manager, and what they hand to the transport and the bus.
use lucinda.Base.{
  Str, Map, lookup, lookup_or, insert, delete, ℤ, pos, leb_ℤ, ltb_ℤ, List, [], ◌∷◌, ◌++◌, Option,
  none, some, length, ◌==◌, if◌then◌else◌, str_eq, lit, flatten,
}
use lucinda.Task.{TaskSpec, Task, TaskAd, is_reduce, task_to_task_ad}
use lucinda.Hardware.{GpuSnapshot, HardwareSnapshot}
use lucinda.Messages.{
  EventType, task_ad_received, task_assigned, CapabilityCv, TaskAssignMsg, Payload, NodeMessage,
  task_ad_to_task_broadcast_msg, task_to_task_assign_msg, new_node_message,
}
use lucinda.Tracer.{Tracer, get_local}
use lucinda.Capability.{match}
use lucinda.StateManager.{Manager, claim}

pub record Board : Type 0 where
  pub my_ads : Map TaskAd
  pub peer_ads : Map TaskAd
  pub bids : Map (List CapabilityCv)

-- A message to every peer, a message to one peer, and an event on the local bus.
pub data Output : Type 0 where
  broadcasts : NodeMessage → Output
  sends : Str → NodeMessage → Output
  publishes : EventType → Payload → Output

pub record World : Type 0 where
  pub board : Board
  pub tracer : Tracer
  pub manager : Manager
  pub outputs : List Output

-- What a handler asks the other modules for while it runs: the transport's own ID, the hardware
-- snapshot, the GPU query (`none` if it does not answer within its two seconds), the models of each
-- provider, and the clock in seconds. `NewTaskBoard` gives every one of these modules.
pub record Env : Type 0 where
  pub self : Str
  pub snapshot : HardwareSnapshot
  pub gpu : Option GpuSnapshot
  pub models : List (List Str)
  pub now : ℤ

abbrev pub task_board_protocol : Str
task_board_protocol = lit "/lucinda/taskboard/1.0.0"

unfoldable pub new_task_board : Board
new_task_board = record { my_ads = []; peer_ads = []; bids = [] }

unfoldable pub output : Output → World → World
output o w = record w { outputs = w.outputs ++ o ∷ [] }

unfoldable pub build_assign_msg : Env → Task → TaskAssignMsg
unfolding task_to_task_assign_msg
build_assign_msg env task = record (task_to_task_assign_msg task) { origin_node_id = env.self }

unfoldable pub build_cv : Env → TaskAd → CapabilityCv
build_cv env ad = record {
  task_id = ad.id;
  peer_id = env.self;
  hardware = elim env.gpu [
    | none ↦ env.snapshot
    | some g ↦ record snapshot { gpu = snapshot.gpu ++ g ∷ [] }
  ];
  models = flatten env.models;
  tools = [];
  labels = [];
}
  where
    open env use {snapshot}

-- Interview

abbrev pub Entry : Type 0
Entry = CapabilityCv × ℤ

-- The loop over the candidates.
unfoldable pub rank : TaskSpec → List CapabilityCv → List Entry
rank spec [] = []
rank spec (cv ∷ rest) =
    let ranked = rank spec rest in
    if leb_ℤ (pos 0) (match cv spec) then (cv, match cv spec) ∷ ranked else ranked

-- `sort.Slice` by descending score. Any sorted order of the entries would do below.
unfoldable pub insert_entry : Entry → List Entry → List Entry
insert_entry e [] = e ∷ []
insert_entry e (f ∷ rest) = if ltb_ℤ e.1 f.1 then f ∷ insert_entry e rest else e ∷ f ∷ rest

unfoldable pub sort_entries : List Entry → List Entry
unfolding insert_entry
sort_entries [] = []
sort_entries (e ∷ rest) = insert_entry e (sort_entries rest)

-- `b.sm.Claim(…, 30)`; its error is dropped.
unfoldable pub claim_for : Env → Str → Str → World → World
claim_for env id peer w = record w { manager = (claim id peer (pos 30) env.now w.manager).0 }

unfoldable pub assign_self : Env → Str → Task → World → World
unfolding claim_for output build_assign_msg
assign_self env id task w =
    output (publishes task_assigned (Payload.assign (build_assign_msg env task)))
      (claim_for env id env.self w)

-- The award: the claim, the assignment by bus or transport, and the clean-up of the maps.
unfoldable pub award : Env → Str → Task → CapabilityCv → World → World
unfolding claim_for output build_assign_msg new_node_message
award env id task winner w =
    let assign = Payload.assign (build_assign_msg env task) in
    let w' = claim_for env id winner.peer_id w in
    let w'' =
      if str_eq winner.peer_id env.self
      then output (publishes task_assigned assign) w'
      else output
          (sends winner.peer_id
            (new_node_message task_board_protocol task_assigned env.self winner.peer_id assign))
          w' in
    record w'' {
      board = record board { bids = delete id board.bids; my_ads = delete id board.my_ads };
    }
  where
    open w use {board}

pub data InterviewResult : Type 0 where
  not_local no_award : InterviewResult
  awarded : CapabilityCv → InterviewResult

unfoldable pub choose : Env → Str → Task → List Entry → World → World × InterviewResult
unfolding award assign_self
choose env id task [] w = (assign_self env id task w, no_award)
choose env id task ((winner, score) ∷ rest) w = (award env id task winner w, awarded winner)

unfoldable pub interview : Env → Str → World → World × InterviewResult
unfolding get_local rank sort_entries choose
interview env id w = elim (get_local id w.tracer) [
  | none ↦ (w, not_local)
  | some task ↦ elim (lookup_or [] id w.board.bids) [
    | [] ↦ (w, no_award)
    | cv ∷ rest ↦ elim (lookup id w.board.my_ads) [
      | none ↦ (w, no_award)
      | some ad ↦ choose env id task (sort_entries (rank ad.spec (cv ∷ rest))) w
    ]
  ]
]

-- Handout, Drawup, Ripup, Putup

unfoldable pub handout : Env → Str → CapabilityCv → World → World
unfolding interview
handout env id cv w =
    let all_bids = lookup_or [] id board.bids ++ cv ∷ [] in
    let w' = record w { board = record board { bids = insert id all_bids board.bids } } in
    if length all_bids == 1 then (interview env id w').0 else w'
  where
    open w use {board}

unfoldable pub submit_bid : Env → TaskAd → World → World
unfolding build_cv handout
submit_bid env ad w =
    let cv = build_cv env ad in
    if ltb_ℤ (match cv ad.spec) (pos 0) then w else handout env ad.id cv w

unfoldable pub drawup : Env → TaskAd → World → World
unfolding submit_bid
drawup env ad w = elim (lookup ad.id board.peer_ads) [
  | some old ↦ w
  | none ↦
      submit_bid env ad
        (record w { board = record board { peer_ads = insert ad.id ad board.peer_ads } })
]
  where
    open w use {board}

unfoldable pub ripup : Str → World → World
ripup id w = record w {
  board = record board { peer_ads = delete id board.peer_ads; bids = delete id board.bids };
}
  where
    open w use {board}

-- The ad goes on the board, to all peers, and to the node itself.
unfoldable pub advertise : Env → Str → Task → World → World
unfolding task_to_task_ad output new_node_message task_ad_to_task_broadcast_msg drawup
advertise env id task w =
    let ad = task_to_task_ad task in
    drawup env ad (
      output
        (broadcasts (
          new_node_message task_board_protocol task_ad_received [] []
            (Payload.broadcast (task_ad_to_task_broadcast_msg ad))))
        (record w { board = record board { my_ads = insert id ad board.my_ads } }))
  where
    open w use {board}

unfoldable pub putup : Env → Str → World → World
unfolding get_local advertise
putup env id w = elim (lookup id w.board.my_ads) [
  | some ad ↦ w
  | none ↦ elim (get_local id w.tracer) [
    | none ↦ w
    | some task ↦ if is_reduce task.spec.stage then w else advertise env id task w
  ]
]
