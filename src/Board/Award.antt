-- ===== src/Board/Award.antt =====
-- internal/task_workflow_layer/task_board/board.go: `Interview`, and the choice among the bids.
use mathlib.Core.List.{Memᴰ}
use lucinda.Base.{
  ◌≡◌, refl, ap, ◌∙◌, ◌≤ℤ◌, Str, str_eq_refl, lookup, lookup_or, lookup-delete, pos, List, [], ◌∷◌,
  none, some, arith,
}
use lucinda.Task.{Task, TaskAd}
use lucinda.Messages.{CapabilityCv}
use lucinda.Capability.{match}
use lucinda.Tracer.{get_local}
use lucinda.Board.Defs.{
  Env, World, Entry, rank, sort_entries, choose, interview, InterviewResult, awarded, award,
}
use lucinda.Board.Ranking.{IsBest, first-IsBest, first_of_sort, mem-rank}

pub interview_candidates :
    (env : Env) (id : Str) (w : World) (task : Task) (ad : TaskAd) (c : CapabilityCv)
    (cs : List CapabilityCv)
    → get_local id w.tracer ≡ some task
    → lookup id w.board.my_ads ≡ some ad
    → lookup_or [] id w.board.bids ≡ c ∷ cs
    → interview env id w ≡ choose env id task (sort_entries (rank ad.spec (c ∷ cs))) w
unfolding interview
interview_candidates env id w task ad c cs t a b = rw (t, b, a, interview)

pub award_clears :
    (env : Env) (id : Str) (task : Task) (cv : CapabilityCv) (w : World)
    → (lookup id (award env id task cv w).board.my_ads ≡ none)
      × (lookup id (award env id task cv w).board.bids ≡ none)
unfolding award
award_clears env id task cv w =
    ground
      (arith, str_eq_refl id, lookup-delete id id w.board.my_ads, lookup-delete id id w.board.bids)

pub choose_first :
    (env : Env) (id : Str) (task : Task) (w : World) (l rest : List Entry) (e : Entry)
    → l ≡ e ∷ rest
    → choose env id task l w ≡ (award env id task e.0 w, awarded e.0)
unfolding choose
choose_first env id task w l rest e q = rw q refl

abbrev BestOutcome : Env → Str → World → TaskAd → List CapabilityCv → Type 0
BestOutcome env id w ad bids =
    (winner : CapabilityCv) × ((interview env id w).1 ≡ awarded winner)
    × IsBest ad.spec bids winner
    × (lookup id (interview env id w).0.board.my_ads ≡ none)
    × (lookup id (interview env id w).0.board.bids ≡ none)

interview_bids :
    (env : Env) (id : Str) (w : World) (task : Task) (ad : TaskAd) (cv : CapabilityCv)
    (bids : List CapabilityCv)
    → get_local id w.tracer ≡ some task
    → lookup id w.board.my_ads ≡ some ad
    → lookup_or [] id w.board.bids ≡ bids
    → Memᴰ cv bids
    → pos 0 ≤ℤ match cv ad.spec
    → BestOutcome env id w ad bids
interview_bids env id w task ad cv [] t a b n q = elim n [ ]
interview_bids env id w task ad cv (c ∷ cs) t a b n q =
    let (e, ne) = mem-rank ad.spec (c ∷ cs) cv n q in
    let (f, rest, s) = first_of_sort (rank ad.spec (c ∷ cs)) e ne in
    let run =
      interview_candidates env id w task ad c cs t a b
      ∙ choose_first env id task w (sort_entries (rank ad.spec (c ∷ cs))) rest f s in
    let cleared = award_clears env id task f.0 w in
    (
      f.0,
      ap (λ (r : World × InterviewResult). r.1) run,
      first-IsBest ad.spec (c ∷ cs) f.0 f.1 rest s,
      rw run cleared.0,
      rw run cleared.1,
    )

-- `Interview` of an advertised local task with a bid that qualifies makes an award, to a bid that
-- qualifies and that no other bid beats; the ad and the bids are then gone.
pub interview_awards-IsBest :
    (env : Env) (id : Str) (w : World) (task : Task) (ad : TaskAd) (cv : CapabilityCv)
    → get_local id w.tracer ≡ some task
    → lookup id w.board.my_ads ≡ some ad
    → Memᴰ cv (lookup_or [] id w.board.bids)
    → pos 0 ≤ℤ match cv ad.spec
    → let w' = (interview env id w).0 in
      (winner : CapabilityCv) × ((interview env id w).1 ≡ awarded winner)
      × IsBest ad.spec (lookup_or [] id w.board.bids) winner
      × (lookup id w'.board.my_ads ≡ none)
      × (lookup id w'.board.bids ≡ none)
interview_awards-IsBest env id w task ad cv t a m q =
    interview_bids env id w task ad cv (lookup_or [] id w.board.bids) t a refl m q
