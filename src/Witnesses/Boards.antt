-- ===== src/Witnesses/Boards.antt =====
-- The theorems on the board and on capability profiles, at a board with one task and two peers.
use mathlib.Core.List.{Memᴰ}
use lucinda.Base.{◌*◌, str_eq}
use lucinda.Base.{
  ◌≡◌, refl, ℕ, Str, lit, Map, lookup, lookup_or, ℤ, pos, negsuc, ◌≤ℤ◌, ltb_ℤ, sub64, List, [], ◌∷◌,
  ◌++◌, Option, none, some, Bool, true, false, arith, inl, inr,
}
use lucinda.Task.{claimed, zero_spec, TaskSpec, Task, TaskAd, Stage, task_to_task_ad}
use lucinda.Hardware.{zero_hardware}
use lucinda.Messages.{task_cv_received, CapabilityCv, request}
use lucinda.Tracer.{new_task_tracer, get_local}
use lucinda.StateManager.{state_of, new_task_state_manager, claim}
use lucinda.Capability.{match, gib}
use lucinda.Capability.Meets.{Meets, match-Meets, Meets-match, priority_disqualifies}
use lucinda.Board.{World, Env, interview, awarded, handout, putup, on_event}
use lucinda.Board.Ranking.{IsBest}
use lucinda.Board.Award.{interview_awards-IsBest}
use lucinda.Board.Protocol.{putup_again_no_bid, first_bid_wins}
use lucinda.Board.Privacy.{IsPrivate, on_event-IsPrivate}
use lucinda.Witnesses.Data.{first_id, me, blank_heap, ingested, ingested_node, ingested_ready}

abbrev spec : TaskSpec
spec = record zero_spec {
  prompt = lit "secret";
  model = lit "llama";
  labels = lit "gpu" ∷ [];
  priority = pos 2;
}

abbrev task : Task
task = record {
  meta = record { id = first_id; type = Stage.unstaged; owner = me };
  spec = spec;
  task_plan = none;
}

abbrev profile : Str → ℕ → CapabilityCv
profile peer gigabytes = record {
  task_id = first_id;
  peer_id = peer;
  hardware = record zero_hardware {
    memory = record {
      total_bytes = pos 0;
      free_bytes = pos (gigabytes * 1073741824);
      used_bytes = pos 0;
    };
  };
  models = lit "llama" ∷ [];
  tools = [];
  labels = [];
}

abbrev small_peer : CapabilityCv
small_peer = profile (lit "small") 4

abbrev large_peer : CapabilityCv
large_peer = profile (lit "large") 16

abbrev env : Env
env = record { self = me; snapshot = zero_hardware; gpu = none; models = []; now = pos 100 }

-- A board with the given ads of its own, peers' ads, and bids.
abbrev board : Map TaskAd → Map TaskAd → List CapabilityCv → World
board mine peers bids = record {
  board = record { my_ads = mine; peer_ads = peers; bids = (first_id, bids) ∷ [] };
  tracer = record new_task_tracer { local = (first_id, task) ∷ [] };
  manager = new_task_state_manager blank_heap;
  outputs = [];
}

abbrev posted : Map TaskAd
posted = (first_id, task_to_task_ad task) ∷ []

abbrev contested : World
contested = board posted [] (small_peer ∷ large_peer ∷ [])

interview_awards-IsBest_example :
    let w' = (interview env first_id contested).0 in
    (winner : CapabilityCv) × ((interview env first_id contested).1 ≡ awarded winner)
    × IsBest spec (lookup_or [] first_id contested.board.bids) winner
    × (lookup first_id w'.board.my_ads ≡ none)
    × (lookup first_id w'.board.bids ≡ none)
unfolding lookup match get_local new_task_tracer task_to_task_ad str_eq sub64
interview_awards-IsBest_example =
    interview_awards-IsBest env first_id contested task (task_to_task_ad task) small_peer refl refl
      (Memᴰ.head refl) (omega arith)

-- The node of the task is Ready.
abbrev open_ad : World
open_ad = record (board posted posted []) { manager = ingested }

first_bid_wins_example :
    let w' = handout env first_id small_peer open_ad in
    (w'.manager ≡ (claim first_id (lit "small") (pos 30) (pos 100) ingested).0)
    × (state_of w'.manager 0 ≡ claimed)
    × (lookup first_id w'.manager.claimed ≡ some (lit "small"))
    × (lookup first_id w'.board.my_ads ≡ none)
    × (lookup first_id w'.board.bids ≡ none)
unfolding lookup match get_local new_task_tracer task_to_task_ad str_eq sub64
first_bid_wins_example =
    first_bid_wins env first_id open_ad task (task_to_task_ad task) small_peer 0 refl refl refl
      (omega arith) ingested_node ingested_ready

abbrev settled : World
settled = board [] posted []

putup_again_no_bid_example :
    let w' = putup env first_id settled in
    (w'.board.bids ≡ settled.board.bids)
    × (w'.manager ≡ settled.manager)
    × (lookup first_id w'.board.my_ads ≡ some (task_to_task_ad task))
unfolding lookup get_local new_task_tracer lucinda.Base.str_eq
putup_again_no_bid_example =
    putup_again_no_bid env first_id settled task (task_to_task_ad task) refl refl refl refl

on_event-IsPrivate_example :
    IsPrivate (on_event env task_cv_received (request (record { cv = small_peer })) open_ad)
on_event-IsPrivate_example =
    on_event-IsPrivate env task_cv_received (request (record { cv = small_peer })) open_ad tt

match-Meets_example : Meets small_peer spec
unfolding match sub64 str_eq
match-Meets_example = match-Meets small_peer spec (omega arith)

small_peer-Meets : Meets small_peer spec
unfolding match sub64 str_eq
small_peer-Meets = record {
  vram = inl (omega arith);
  model = inr (inr (Memᴰ.head refl));
  tools = inl refl;
  labels = inl refl;
}

Meets-match_example :
    match small_peer spec ≡ sub64 (gib small_peer.hardware.memory.free_bytes) (pos 2)
Meets-match_example = Meets-match small_peer spec small_peer-Meets

abbrev urgent : TaskSpec
urgent = record spec { priority = pos 10 }

small_peer-Meets-urgent : Meets small_peer urgent
small_peer-Meets-urgent = record {
  vram = inl (omega arith);
  model = inr (inr (Memᴰ.head refl));
  tools = inl refl;
  labels = inl refl;
}

priority_disqualifies_example : ltb_ℤ (match small_peer urgent) (pos 0) ≡ true
priority_disqualifies_example =
    priority_disqualifies small_peer urgent 4294967296 10 small_peer-Meets-urgent refl refl
      (omega arith) (omega arith) (omega arith)
