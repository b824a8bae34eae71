-- ===== src/UserServer/Results.antt =====
-- internal/user_server/server.go and internal/task_wrapper/wrapper.go: a request on its way to the
-- planner, and the channel that its client waits on.
use lucinda.Base.{
  lit, ℕ, suc, ◌≤◌, ◌<◌, ◌≡◌, refl, ◌∙◌, ap, Str, str_eq_refl, str_eq_iff, Map, lookup, insert,
  lookup-insert, lookup-delete, ℤ, [], ◌∷◌, ◌++◌, Option, none, some, true, length, arith,
}
use lucinda.Task.{TaskPlan, Chan}
use lucinda.Messages.{task_preplanned, Payload}
use lucinda.EventBus.{Bus}
use lucinda.Postman.{new_event}
use lucinda.Postman.Delivery.{Serves, appended, publish_room}
use lucinda.Planner.{
  PlanEnv, PlanWorld, reduce_id, run_plan, draft_plan, plan_of_task, with_notify, on_preplanned,
}
use lucinda.Reducer.{count_dashes, parent_plan_id}
use lucinda.Reducer.Ids.{parent_plan_id-reduce_id}
use lucinda.StateManager.{Manager}
use lucinda.StateManager.Frames.{ingest_books}
use lucinda.UserServer.{
  wrapped_id, wrapped_task, wrap, Server, owner_or, Reply, tracking, plan_not_found, handle_chat,
  refused, waits_on, open_stream, end_stream,
}

wrap_lem :
    (show : ℤ → Str) (now : ℤ) (prompt owner : Str) (ch : Chan) (c : ℕ) (b : Bus)
    → Serves task_preplanned c b
    → length (b.channels c).buffer < (b.channels c).capacity
    → (b' : Bus) × (wrap show now prompt owner ch b ≡ some (b', wrapped_id show now))
      × ((b'.channels c).buffer
          ≡ (b.channels c).buffer
            ++ new_event task_preplanned
                (Payload.task (wrapped_task (wrapped_id show now) prompt owner ch))
              ∷ [])
unfolding wrap
wrap_lem show now prompt owner ch c b v room =
    let e =
      new_event task_preplanned
        (Payload.task (wrapped_task (wrapped_id show now) prompt owner ch)) in
    let there = publish_room task_preplanned c e b v room in
    (
      appended e c b,
      ap
          (λ (o : Option Bus). elim o as (λ x. Option (Bus × Str)) [
            | none ↦ none
            | some b' ↦ some (b', wrapped_id show now)
          ])
          there.0,
      there.1,
    )

stream_opens :
    (d : ℕ) (id : Str) (ch : Chan) (streams : Map Chan) (next : Chan)
    → open_stream (d ∷ id) true (record { streams = insert (d ∷ id) ch streams; next = next })
      ≡ waits_on ch
unfolding open_stream
stream_opens d id ch streams next =
    ground (arith, lookup-insert (d ∷ id) (d ∷ id) ch streams, str_eq_refl (d ∷ id))

stream_ends :
    (d : ℕ) (id : Str) (ch : Chan) (streams : Map Chan) (next : Chan)
    → open_stream
        (d ∷ id)
        true
        (end_stream (d ∷ id) (record { streams = insert (d ∷ id) ch streams; next = next }))
      ≡ refused plan_not_found
unfolding open_stream end_stream
stream_ends d id ch streams next =
    ground
      (arith, lookup-delete (d ∷ id) (d ∷ id) (insert (d ∷ id) ch streams), str_eq_refl (d ∷ id))

-- The request's channel in the server, and what the request leaves on the bus.
pub handle_chat_queued :
    (show : ℤ → Str) (now : ℤ) (d : ℕ) (rest owner : Str) (c : ℕ) (s : Server) (b : Bus)
    → Serves task_preplanned c b
    → length (b.channels c).buffer < (b.channels c).capacity
    → let id = wrapped_id show now in
      let s' : Server = record { streams = insert id s.next s.streams; next = suc s.next } in
      (b' : Bus) × (handle_chat show now true (record { prompt = d ∷ rest; owner = owner }) (s, b)
        ≡ some ((s', b'), tracking id))
      × ((b'.channels c).buffer
          ≡ (b.channels c).buffer
            ++ new_event task_preplanned
                (Payload.task (wrapped_task id (d ∷ rest) (owner_or owner) s.next))
              ∷ [])
      × (open_stream id true s' ≡ waits_on s.next)
      × (open_stream id true (end_stream id s') ≡ refused plan_not_found)
unfolding handle_chat wrapped_id
handle_chat_queued show now d rest owner c s b v room =
    let id = wrapped_id show now in
    let (b', wrapped, there) = wrap_lem show now (d ∷ rest) (owner_or owner) s.next c b v room in
    let s' : Server = record { streams = insert id s.next s.streams; next = suc s.next } in
    (
      b',
      ap
          (λ (o : Option (Bus × Str)). elim o as (λ x. Option ((Server × Bus) × Reply)) [
            | none ↦ none
            | some (b, i) ↦
                some (
                  (record { streams = insert i s.next s.streams; next = suc s.next }, b),
                  tracking i,
                )
          ])
          wrapped,
      there,
      stream_opens 112 (lit "lan-" ++ show now) s.next s.streams (suc s.next),
      stream_ends 112 (lit "lan-" ++ show now) s.next s.streams (suc s.next),
    )

-- The channel at `next` is new, since the streams wait on earlier ones.
abbrev pub AllOlder : Server → Type 0
AllOlder s = (k : Str) (c : Chan) → lookup k s.streams ≡ some c → c < s.next

added-AllOlder :
    (id : Str) (s : Server)
    → AllOlder s
    → AllOlder (record { streams = insert id s.next s.streams; next = suc s.next })
added-AllOlder id s older = λ k c e. ground (arith, lookup-insert id k s.next s.streams, older k c)

added_alone :
    (id : Str) (s : Server)
    → AllOlder s
    → (k : Str) → lookup k (insert id s.next s.streams) ≡ some s.next
    → k ≡ id
added_alone id s older k e =
    ground (arith, lookup-insert id k s.next s.streams, older k s.next, str_eq_iff id k)

-- A request with a prompt, posted while the planner's loop alone has its topic, on an open channel
-- with room for an event, to a server whose streams wait on channels that were made before, is answered
-- with a tracking ID, made of the time. The planner's channel then ends with a task of that ID that
-- carries a channel which no other ID of the server has, a stream that is opened with the ID waits on
-- that very channel, and once it has ended the ID is not found any more. The streams of the new state
-- wait on channels that were made before its next one, again.
pub handle_chat_tracked :
    (show : ℤ → Str) (now : ℤ) (d : ℕ) (rest owner : Str) (c : ℕ) (s : Server) (b : Bus)
    → Serves task_preplanned c b
    → length (b.channels c).buffer < (b.channels c).capacity
    → AllOlder s
    → let id = wrapped_id show now in
      (s' : Server) × (b' : Bus) × (handle_chat show now true
          (record { prompt = d ∷ rest; owner = owner })
          (s, b)
        ≡ some ((s', b'), tracking id))
      × ((b'.channels c).buffer
          ≡ (b.channels c).buffer
            ++ new_event task_preplanned
                (Payload.task (wrapped_task id (d ∷ rest) (owner_or owner) s.next))
              ∷ [])
      × (open_stream id true s' ≡ waits_on s.next)
      × (open_stream id true (end_stream id s') ≡ refused plan_not_found)
      × ((k : Str) → lookup k s'.streams ≡ some s.next → k ≡ id)
      × AllOlder s'
handle_chat_tracked show now d rest owner c s b v room older =
    let id = wrapped_id show now in
    let s' : Server = record { streams = insert id s.next s.streams; next = suc s.next } in
    let (b', answered, queued, waits, gone) =
      handle_chat_queued show now d rest owner c s b v room in
    (s', b', answered, queued, waits, gone, added_alone id s older, added-AllOlder id s older)

wrapped_id_back :
    (show : ℤ → Str) (now : ℤ)
    → parent_plan_id (reduce_id (wrapped_id show now)) ≡ wrapped_id show now
wrapped_id_back show now = parent_plan_id-reduce_id (wrapped_id show now) (a_dash show now)
  where
    a_dash : (show : ℤ → Str) (now : ℤ) → 1 ≤ count_dashes (wrapped_id show now)
    a_dash show now = unfold count_dashes in unfold wrapped_id in omega arith

-- When the planner takes up the task of a request whose ID no plan has, it ingests a plan of that
-- ID with the request's channel, and the reducer finds this plan from the ID of its reduce node.
pub on_preplanned_wrapped :
    (show : ℤ → Str) (now : ℤ) (prompt owner : Str) (ch : Chan) (env : PlanEnv) (w : PlanWorld)
    → let id = wrapped_id show now in
      lookup id w.manager.plans ≡ none
      → let w' = (on_preplanned env (Payload.task (wrapped_task id prompt owner ch)) w).0 in
        (p : TaskPlan) × (lookup (parent_plan_id (reduce_id id)) w'.manager.plans ≡ some p)
        × (p.id ≡ id)
        × (p.notify ≡ some ch)
unfolding on_preplanned run_plan plan_of_task with_notify wrapped_task
on_preplanned_wrapped show now prompt owner ch env w fresh =
    let id = wrapped_id show now in
    let task = wrapped_task id prompt owner ch in
    let h = w.manager.heap in
    let p = plan_of_task env task h in
    let m : Manager = record w.manager { heap = (draft_plan env task h).heap } in
    (
      p,
      rw (wrapped_id_back show now) (
          ap (lookup id) (ingest_books p env.now m fresh).0
          ∙ lookup-insert id id p m.plans
          ∙ ground (arith, str_eq_refl id)),
      refl,
      refl,
    )
