-- ===== src/Program/Services.antt =====
-- `Start` and `Stop` of the four parts of internal/task_workflow_layer, and `Stop` of the postman: which
-- goroutines they start and end. A goroutine is in the list for as long as its context is not cancelled.
use lucinda.Base.{
  Str, ℕ, List, [], ◌∷◌, ◌++◌, Option, none, some, Bool, true, false, not, keep, str_eq,
  if◌then◌else◌,
}
use lucinda.Messages.{
  EventType, task_ready, task_republished, task_ad_received, task_cv_received, task_done,
  task_assigned, task_preplanned,
}
use lucinda.ModuleManager.{ModuleType, type_name}
use lucinda.EventBus.{Bus}
use lucinda.Postman.{watch, deliver}
use lucinda.Transport.Defs.{Transport, open_protocol}
use lucinda.Board.{task_board_protocol}

-- The loop of a `Watch` on a channel of the bus, that of a `Deliver` on a channel of the transport, and
-- the heartbeat of the board; each belongs to the part in whose context it runs. These are the loops
-- that `Start` begins. A goroutine that a handler begins is none of them: the executor's for an
-- assignment, and the watches of leases and deadlines, for which the state manager keeps its own list.
pub data Loop : Type 0 where
  watches : ModuleType → EventType → ℕ → Loop
  delivers : ModuleType → ℕ → Loop
  beats : ModuleType → Loop

abbrev owner : Loop → ModuleType
owner (watches part topic c) = part
owner (delivers part c) = part
owner (beats part) = part

pub record Services : Type 0 where
  pub transport : Transport
  pub bus : Bus
  pub loops : List Loop

-- `Watch` by a part.
unfoldable pub watch_by : ModuleType → EventType → Services → Services
unfolding watch
watch_by part topic s =
    let (b, c) = watch topic s.bus in
    record s { bus = b; loops = s.loops ++ watches part topic c ∷ [] }

-- `Deliver` by a part, which passes over the error of a protocol that is not open.
unfoldable pub deliver_by : ModuleType → Str → Services → Services
unfolding deliver
deliver_by part proto s = elim (deliver proto s.transport) [
  | none ↦ s
  | some c ↦ record s { loops = s.loops ++ delivers part c ∷ [] }
]

unfoldable pub start_board : Services → Services
unfolding watch_by deliver_by open_protocol
start_board s =
    let part = ModuleType.task_board in
    let s₁ = record s { transport = (open_protocol task_board_protocol s.transport).0 } in
    let s₂ = deliver_by part task_board_protocol s₁ in
    let s₃ = watch_by part task_ready s₂ in
    let s₄ = watch_by part task_republished s₃ in
    let s₅ = watch_by part task_ad_received s₄ in
    let s₆ = watch_by part task_cv_received s₅ in
    let s₇ = watch_by part task_done s₆ in record s₇ { loops = s₇.loops ++ beats part ∷ [] }

unfoldable pub start_executor : Services → Services
unfolding watch_by
start_executor s = watch_by ModuleType.task_executor task_assigned s

unfoldable pub start_planner : Services → Services
unfolding watch_by
start_planner s = watch_by ModuleType.task_planner task_preplanned s

unfoldable pub start_reducer : Services → Services
unfolding watch_by
start_reducer s = watch_by ModuleType.task_reducer task_ready s

-- `Stop` of one of the four parts cancels its context.
unfoldable pub stop_part : ModuleType → List Loop → List Loop
unfolding type_name
stop_part part loops = keep (λ l. not (str_eq (type_name (owner l)) (type_name part))) loops

abbrev is_delivery : Loop → Bool
is_delivery (watches part topic c) = false
is_delivery (delivers part c) = true
is_delivery (beats part) = false

abbrev is_watch : Loop → Bool
is_watch (watches part topic c) = true
is_watch (delivers part c) = false
is_watch (beats part) = false

-- `Stop` of the postman cancels every loop of `Watch`. It then waits for all the loops that `Watch` and
-- `Deliver` have begun: for the handlers that are still running in loops of `Watch`, cancelled before or
-- now, of which `handlers_return` says whether all of them return, and for the loops of `Deliver`, which
-- it does not cancel. `none` where it waits for ever.
unfoldable pub stop_postman : Bool → List Loop → Option (List Loop)
stop_postman handlers_return loops =
    if not handlers_return then none else elim (keep is_delivery loops) [
      | [] ↦ some (keep (λ l. not (is_watch l)) loops)
      | l ∷ rest ↦ none
    ]
