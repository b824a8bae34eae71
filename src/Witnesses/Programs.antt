-- ===== src/Witnesses/Programs.antt =====
-- The theorems on the program as a whole: its start and its first request.
use lucinda.Base.{
  List, ◌≡◌, refl, Str, lit, lookup, insert, str_eq, ℤ, pos, leb_ℤ, [], ◌∷◌, none, some, gave, true,
  false, if◌then◌else◌, wrap64, arith,
}
use lucinda.Task.{TaskPlan}
use lucinda.EventBus.{Bus}
use lucinda.Monitor.{
  FloatOps, Reading, new_hardware_monitor, significant_change, snapshot_of, start, snapshot, panics,
  polls, period,
}
use lucinda.Monitor.Changes.{start_panics}
use lucinda.Postman.{watch_round}
use lucinda.Planner.{PlanEnv, reduce_id}
use lucinda.Reducer.{parent_plan_id}
use lucinda.Providers.Wire.{ProviderConfig}
use lucinda.Providers.Controller.{
  Controller, new_provider_controller, load_providers, register, create,
}
use lucinda.UserServer.{wrapped_id, Server, tracking, new_http_server}
use lucinda.Program.Construct.{made}
use lucinda.Program.Main.{Program, Config, Env, load_config, boot, shut_down}
use lucinda.Program.Wiring.{Wired}
use lucinda.Program.Running.{program_of, program_of-Wired}
use lucinda.Program.Booting.{boot_wires}
use lucinda.UserServer.Listening.{replies, streams_from, serve, new_listener}
use lucinda.UserServer.Routing.{chat_request, stream_request}
use lucinda.Program.FirstRequest.{planning, take_up, first_request}
use lucinda.Program.Shutdown.{after, shut_down_ends}
use lucinda.Messages.{NodeMessage, new_node_message, task_done, Payload}
use lucinda.Transport.Defs
use lucinda.Transport.Defs.{Transport, new_libp2p_transport}
use lucinda.Transport.Sound.{Sound}
use lucinda.Transport.Calls.{
  Call, opens, closes, sends, publishes, stops, calls, new_libp2p_transport-Sound, start-Sound,
  calls-Sound,
}
use lucinda.Witnesses.Data.{blank_heap}

-- The machine

abbrev floats : FloatOps
floats = record { gt = λ x y. false; minus = λ x y. 0; over = λ x y. 0; of_int = λ n. 0 }

abbrev reading : Reading
reading = record { now = pos 160; cores = pos 8; usage = some (7 ∷ []); memory = none }

-- A monitor whose interval is 0.
start_panics_example :
    let m = new_hardware_monitor (pos 0) in
    (snapshot (start floats reading m).0.0 ≡ snapshot_of reading)
    × ((start floats reading m).0.1 ≡ (
        if significant_change floats m.cache (snapshot_of reading)
        then some (snapshot_of reading)
        else none))
    × ((start floats reading m).1 ≡ (if leb_ℤ (pos 0) (pos 0) then panics else polls))
unfolding new_hardware_monitor
start_panics_example =
    start_panics floats reading (new_hardware_monitor (pos 0)) refl (omega arith) (omega arith)

-- The configuration of one provider, without an interval.

abbrev local_model : ProviderConfig
local_model = record {
  id = lit "vllm-qwen";
  driver = lit "vllm";
  host = lit "localhost";
  port = pos 8000;
  api_key = [];
  max_context_tokens = pos 2048;
  base_url = [];
  total_vram = pos 0;
  timeout = pos 0;
  models = lit "qwen-2.5-gptq" ∷ [];
}

abbrev file : Config
file = record { numbers = (lit "http.port", pos 8080) ∷ []; providers = local_model ∷ [] }

abbrev filled : Config
filled = record {
  numbers =
      (lit "http.port", pos 8080)
      ∷ (lit "hardware_monitor.interval_sec", pos 5)
      ∷ (lit "transport.libp2p.outs_length", pos 20)
      ∷ (lit "transport.libp2p.ins_length", pos 100)
      ∷ [];
  providers = local_model ∷ [];
}

-- A provider is its configuration.
abbrev env : Env ProviderConfig
env = record {
  drivers = (lit "vllm", λ c. gave c) ∷ [];
  host = some (lit "peer-1");
  floats = floats;
  reading = reading;
  heap = blank_heap;
}

abbrev loaded : Controller ProviderConfig
loaded = (lit "vllm-qwen", local_model) ∷ []

boot_wires_example :
    let p = program_of env filled (lit "peer-1") loaded in (boot env (some file) ≡ made p) × Wired p
unfolding load_config load_providers register create lookup insert str_eq new_provider_controller
    period wrap64
boot_wires_example = boot_wires env (some file) filled (lit "peer-1") loaded refl refl refl refl

-- The model is down, so that the plan is the fallback.
abbrev plan_env : PlanEnv
plan_env = record {
  provider = none;
  decomposition = λ prompt. prompt;
  unmarshal = λ text. none;
  now = pos 0;
  next = 0;
}

abbrev show : ℤ → Str
show n = lit "17"

first_request_example :
    let p = program_of env filled (lit "peer-1") loaded in
    let id = wrapped_id show (pos 17) in
    (s' : Server) × (b' : Bus) × (serve show
        (pos 17)
        (chat_request (record { prompt = lit "hi"; owner = [] }))
        (p.server.server, p.services.bus)
      ≡ some ((s', b'), replies (tracking id)))
    × (serve show (pos 17) (stream_request id) (s', b') ≡ some ((s', b'), streams_from 0))
    × (let w' = (watch_round (take_up plan_env) 6 (b', planning p)).0.1 in
        (plan : TaskPlan) × (lookup (parent_plan_id (reduce_id id)) w'.manager.plans ≡ some plan)
        × (plan.id ≡ id)
        × (plan.notify ≡ some 0))
unfolding new_listener new_http_server
first_request_example =
    first_request (program_of env filled (lit "peer-1") loaded) plan_env show (pos 17) b'h'
      (lit "i") [] (program_of env filled (lit "peer-1") loaded).server.server
      (program_of-Wired env filled (lit "peer-1") loaded)

abbrev message : NodeMessage
message = new_node_message (lit "/p") task_done [] [] (Payload.decoded (lit "hi"))

-- The protocol is opened twice and closed, and a message to a peer stands between.
abbrev busy : List Call
busy =
    opens (lit "/p")
    ∷ opens (lit "/p")
    ∷ sends (lit "peer-2") message
    ∷ publishes (lit "peer-2" ∷ lit "peer-1" ∷ []) message
    ∷ closes (lit "/p")
    ∷ stops
    ∷ sends (lit "peer-2") message
    ∷ []

abbrev started : Transport
started = (Defs.start (some (lit "peer-1")) (new_libp2p_transport (pos 0) (pos 0))).0

started-Sound : Sound started
started-Sound =
    start-Sound (some (lit "peer-1")) (new_libp2p_transport (pos 0) (pos 0))
      (new_libp2p_transport-Sound (pos 0) (pos 0))

calls-Sound_example :
    (t' : Transport) × (calls busy started ≡ some t') × Sound t' × (t'.has_host ≡ true)
unfolding Defs.start new_libp2p_transport
calls-Sound_example = calls-Sound busy started started-Sound refl

shut_down_ends_example :
    let p = program_of env filled (lit "peer-1") loaded in
    (t : Transport) × (calls busy p.services.transport ≡ some t)
    × ((p' : Program ProviderConfig) × (shut_down true (after p t p.services.bus) ≡ some p')
        × (p'.services.loops ≡ [])
        × (p'.services.transport.is_started ≡ false))
shut_down_ends_example =
    shut_down_ends (program_of env filled (lit "peer-1") loaded) busy
      (program_of env filled (lit "peer-1") loaded).services.bus
      (program_of-Wired env filled (lit "peer-1") loaded)
