-- ===== src/Board/Handlers.antt =====
-- internal/task_workflow_layer/task_board/board.go: the handlers that `Start` registers on the bus,
-- the heartbeat, and the two lists. A payload of another dynamic type than a handler's type
-- assertion wants is dropped.
use lucinda.Base.{Str, List, [], ◌∷◌, none, map}
use lucinda.Task.{Task, TaskAd, TaskNode, Stage}
use lucinda.Messages.{
  EventType, task_ready, task_republished, task_ad_received, task_cv_received, task_done, Payload,
  node, ad, request, result,
}
use lucinda.Tracer.{set_output}
use lucinda.StateManager.{complete, expired}
use lucinda.Board.Defs.{World, Env, putup, drawup, handout}

-- `TaskDone`: the output goes to the tracer, then the node is completed.
unfoldable pub on_task_done : Str → Str → World → World
on_task_done id output w = record w {
  tracer = (set_output id output w.tracer).0;
  manager = (complete id output w.manager).0;
}

unfoldable pub on_ready : Env → Payload → World → World
on_ready env (node a) w = putup env (w.manager.heap a).id w
on_ready env _ w = w

unfoldable pub on_ad : Env → Payload → World → World
on_ad env (ad x) w = drawup env x w
on_ad env _ w = w

unfoldable pub on_cv : Env → Payload → World → World
on_cv env (request msg) w = handout env msg.cv.task_id msg.cv w
on_cv env _ w = w

unfoldable pub on_done : Payload → World → World
unfolding on_task_done
on_done (result r) w = on_task_done r.node_id r.output w
on_done _ w = w

unfoldable pub on_event : Env → EventType → Payload → World → World
unfolding on_ready on_ad on_cv on_done
on_event env task_ready p w = on_ready env p w
on_event env task_republished p w = on_ready env p w
on_event env task_ad_received p w = on_ad env p w
on_event env task_cv_received p w = on_cv env p w
on_event env task_done p w = on_done p w
on_event env _ p w = w

-- One tick: every expired node is put up again.
unfoldable pub putup_all : Env → List TaskNode → World → World
putup_all env [] w = w
putup_all env (n ∷ rest) w = putup_all env rest (putup env n.id w)

unfoldable pub heartbeat : Env → World → World
unfolding putup_all
heartbeat env w = putup_all env (expired env.now w.manager) w

abbrev ad_task : Str × TaskAd → Task
ad_task e = record {
  meta = record { id = e.1.id; type = Stage.unstaged; owner = [] };
  spec = e.1.spec;
  task_plan = none;
}

unfoldable pub wanted : World → List Task
wanted w = map ad_task w.board.peer_ads

unfoldable pub posted : World → List Task
posted w = map ad_task w.board.my_ads
