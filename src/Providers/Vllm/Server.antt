-- ===== src/Providers/Vllm/Server.antt =====
-- pkg/infrastructure_layer/provider/drivers/vllm/vllm_provider.go: the wire types, the construction, and
-- what the server tells about itself.
use lucinda.Base.{
  ◌==◌, Str, str_eq, lit, ℤ, pos, add64, sub64, List, [], ◌∷◌, ◌++◌, Option, Bool, Result, failed,
  gave, if◌then◌else◌, has_prefix, split, fields,
}
use lucinda.Hardware.{Float64, GpuSnapshot, zero_gpu}
use lucinda.Providers.Wire.{
  ProviderStatus, ProviderHealth, ProviderInfo, cloud, ProviderConfig, Usage, DriverError,
  invalid_driver, Net, server_url, client_timeout, get_of, body_of,
}

-- The wire types.

pub record ImageUrl : Type 0 where
  pub url : Str
  pub detail : Str

pub record Content : Type 0 where
  pub type : Str
  pub text : Str
  pub image_url : Option ImageUrl

pub record WireMessage : Type 0 where
  pub role : Str
  pub content : List Content

pub record CompletionRequest : Type 0 where
  pub model : Str
  pub messages : List WireMessage
  pub stream : Bool
  pub temperature : Float64
  pub top_p : Float64
  pub max_tokens : ℤ

-- `raw` is the content of the message as it stands in the answer.
pub record Choice : Type 0 where
  pub role : Str
  pub raw : Str
  pub delta : Str

pub record CompletionResponse : Type 0 where
  pub id : Str
  pub model : Str
  pub choices : List Choice
  pub usage : Usage

-- The JSON library on these types, and `int64(val * 100)` of what `Sscanf` reads.
pub record Codec : Type 0 where
  pub marshal : CompletionRequest → Str
  pub decode : Str → Option CompletionResponse
  pub text_of : Str → Option Str
  pub parts_of : Str → Option (List Content)
  pub deltas_of : Str → Option (List Str)
  pub percent : Str → ℤ

pub record Vllm : Type 0 where
  pub config : ProviderConfig
  pub base_url : Str
  pub timeout : ℤ
  pub created_at : ℤ
  pub event_id : ℤ

unfoldable pub new_vllm_provider : Net → ProviderConfig → Result DriverError Vllm
unfolding server_url client_timeout
new_vllm_provider net c =
    if str_eq c.driver (lit "vllm")
    then gave (record {
      config = c;
      base_url = server_url net.show c;
      timeout = client_timeout 120 c;
      created_at = net.now;
      event_id = pos 0;
    })
    else failed (invalid_driver c.driver)

unfoldable pub get_info : Vllm → ProviderInfo
get_info p = record {
  id = p.config.id;
  type = cloud;
  models = p.config.models;
  created_at = p.created_at;
}

-- The new counter, and the name with it.
unfoldable pub next_event_id : Net → Vllm → Vllm × Str
next_event_id net p =
    let n = add64 p.event_id (pos 1) in
    (record p { event_id = n }, (p.config.id ++ lit "-") ++ net.show n)

-- `errorHealth`
unfoldable pub error_health : Net → Str → Vllm → Vllm × ProviderHealth
unfolding next_event_id
error_health net text p =
    let (p', id) = next_event_id net p in
    (p', record { id = id; status = ProviderStatus.error; timestamp = net.now; error_text = text })

unfoldable pub health : Net → Vllm → Vllm × ProviderHealth
unfolding next_event_id error_health
health net p = elim (net.client (get_of (p.base_url ++ lit "/health"))) [
  | failed text ↦ error_health net text p
  | gave r ↦
      if r.status == 200
      then (let (p', id) = next_event_id net p in
          (
            p',
            record { id = id; status = ProviderStatus.free; timestamp = net.now; error_text = [] },
          ))
      else error_health net (lit "status " ++ net.show (pos r.status)) p
]

unfoldable pub parse_prom_float : (Str → ℤ) → Str → ℤ
parse_prom_float percent line = elim (fields line) [
  | [] ↦ pos 0
  | name ∷ rest ↦ elim rest [ [] ↦ pos 0 | value ∷ more ↦ percent value ]
]

-- The loop over the lines.
unfoldable pub find_usage : (Str → ℤ) → List Str → ℤ
unfolding parse_prom_float
find_usage percent [] = pos 0
find_usage percent (line ∷ rest) =
    if has_prefix line (lit "vllm:gpu_cache_usage_perc")
    then parse_prom_float percent line
    else find_usage percent rest

unfoldable pub parse_metrics : (Str → ℤ) → Str → GpuSnapshot
unfolding find_usage
parse_metrics percent body = record zero_gpu {
  device = lit "vllm";
  used_vram = find_usage percent (split 10 body);
}

abbrev with_total : ℤ → GpuSnapshot → GpuSnapshot
with_total total snap = record snap { total_vram = total; free_vram = sub64 total snap.used_vram }

unfoldable pub gpu : Codec → Net → Vllm → Result DriverError GpuSnapshot
unfolding body_of parse_metrics
gpu codec net p = elim (body_of (net.client (get_of (p.base_url ++ lit "/metrics")))) [
  | failed e ↦ failed e
  | gave b ↦ gave (with_total p.config.total_vram (parse_metrics codec.percent b))
]
