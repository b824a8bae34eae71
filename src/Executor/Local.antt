-- ===== src/Executor/Local.antt =====
-- internal/task_workflow_layer/task_executor/executor.go with board.go: a local assignment from the
-- claim to the completed node.
use lucinda.Base.{◌≡◌, refl, Str, lookup, List, [], ◌∷◌, ◌++◌, none, some, true, arith}
use lucinda.Task.{running, claimed, Addr}
use lucinda.Messages.{TaskAssignMsg, task_done, result}
use lucinda.StateManager.{Manager, state_of, complete, start}
use lucinda.Planner.{Provider}
use lucinda.Board.{World, publishes, output}
use lucinda.Executor.{choose_provider, answer, is_local, track, begin, deliver, execute}

starts_and_completes :
    (id text : Str) (m : Manager) (a : Addr)
    → lookup id m.nodes ≡ some a
    → state_of m a ≡ claimed
    → (state_of (start id m).0 a ≡ running) × ((complete id text (start id m).0).1 ≡ none)
unfolding start complete
starts_and_completes id text m a e c = ground arith

-- On a local assignment whose node is Claimed, with a provider that answers, `execute` brings the
-- node to Running and publishes exactly one event, the output of the node, and `Complete` with that
-- output is then accepted.
pub execute_local :
    (self text : Str) (providers : List Provider) (p : Provider) (msg : TaskAssignMsg) (w : World)
    (a : Addr)
    → is_local self msg ≡ true
    → choose_provider msg.spec.model providers ≡ some p
    → answer p msg ≡ some text
    → lookup msg.node_id w.manager.nodes ≡ some a
    → state_of w.manager a ≡ claimed
    → let (w', err) = execute self providers msg w in
      (err ≡ none)
      × (state_of w'.manager a ≡ running)
      × (w'.outputs
          ≡ w.outputs
            ++ publishes task_done (result (record { node_id = msg.node_id; output = text })) ∷ [])
      × ((complete msg.node_id text w'.manager).1 ≡ none)
unfolding execute track begin deliver output
execute_local self text providers p msg w a l c g e s =
    let (runs, fin) = starts_and_completes msg.node_id text w.manager a e s in
    rw (c, g, l, execute, begin, deliver) (refl, runs, refl, fin)
