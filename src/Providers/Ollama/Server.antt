-- ===== src/Providers/Ollama/Server.antt =====
-- pkg/infrastructure_layer/provider/drivers/ollama/ollama_provider.go: the wire types, the construction,
-- and what the server tells about itself.
use lucinda.Base.{
  Str, str_eq, lit, ℤ, pos, add64, sub64, List, [], ◌∷◌, ◌++◌, Option, none, some, Bool, Result,
  failed, gave, if◌then◌else◌, ◌==◌,
}
use lucinda.Hardware.{Float64, GpuSnapshot}
use lucinda.Providers.Wire.{
  ProviderStatus, ProviderHealth, ProviderInfo, local, ProviderConfig, DriverError, invalid_driver,
  decode_failed, Net, server_url, client_timeout, get_of, body_of,
}

-- The wire types. The counts and the message are what the driver reads of an answer.

pub record OllamaMessage : Type 0 where
  pub role : Str
  pub content : Str
  pub images : List Str

pub record OllamaOptions : Type 0 where
  pub temperature : Float64
  pub top_p : Float64
  pub num_predict : ℤ

pub record OllamaRequest : Type 0 where
  pub model : Str
  pub messages : List OllamaMessage
  pub stream : Bool
  pub options : Option OllamaOptions

pub record OllamaResponse : Type 0 where
  pub model : Str
  pub message : OllamaMessage
  pub done : Bool
  pub eval_count : ℤ
  pub prompt_eval_count : ℤ

-- The JSON library on these types; a loaded model is its memory.
pub record Codec : Type 0 where
  pub marshal : OllamaRequest → Str
  pub decode : Str → Option OllamaResponse
  pub loaded_of : Str → Option (List ℤ)

pub record Ollama : Type 0 where
  pub config : ProviderConfig
  pub base_url : Str
  pub timeout : ℤ
  pub created_at : ℤ
  pub event_id : ℤ

unfoldable pub new_ollama_provider : Net → ProviderConfig → Result DriverError Ollama
unfolding server_url client_timeout
new_ollama_provider net c =
    if str_eq c.driver (lit "ollama")
    then gave (record {
      config = c;
      base_url = server_url net.show c;
      timeout = client_timeout 30 c;
      created_at = net.now;
      event_id = pos 0;
    })
    else failed (invalid_driver c.driver)

unfoldable pub get_info : Ollama → ProviderInfo
get_info p = record {
  id = p.config.id;
  type = local;
  models = p.config.models;
  created_at = p.created_at;
}

unfoldable pub next_event_id : Net → Ollama → Ollama × Str
next_event_id net p =
    let n = add64 p.event_id (pos 1) in
    (record p { event_id = n }, (p.config.id ++ lit "-") ++ net.show n)

-- `errorHealth`
unfoldable pub error_health : Net → Str → Ollama → Ollama × ProviderHealth
unfolding next_event_id
error_health net text p =
    let (p', id) = next_event_id net p in
    (p', record { id = id; status = ProviderStatus.error; timestamp = net.now; error_text = text })

unfoldable pub health : Net → Ollama → Ollama × ProviderHealth
unfolding next_event_id error_health
health net p = elim (net.client (get_of (p.base_url ++ lit "/"))) [
  | failed text ↦ error_health net text p
  | gave r ↦
      if r.status == 200
      then (let (p', id) = next_event_id net p in
          (
            p',
            record { id = id; status = ProviderStatus.free; timestamp = net.now; error_text = [] },
          ))
      else error_health net (lit "status " ++ net.show (pos r.status)) p
]

-- The sum of the loop over the loaded models, from its start value.
unfoldable pub used_memory : ℤ → List ℤ → ℤ
used_memory acc [] = acc
used_memory acc (n ∷ rest) = used_memory (add64 acc n) rest

unfoldable pub gpu : Codec → Net → Ollama → Result DriverError GpuSnapshot
unfolding body_of used_memory
gpu codec net p = elim (body_of (net.client (get_of (p.base_url ++ lit "/api/ps")))) [
  | failed e ↦ failed e
  | gave b ↦ elim (codec.loaded_of b) [
    | none ↦ failed decode_failed
    | some loaded ↦
        let used = used_memory (pos 0) loaded in
        gave (record {
          device = lit "ollama";
          total_vram = p.config.total_vram;
          free_vram = sub64 p.config.total_vram used;
          used_vram = used;
        })
  ]
]
