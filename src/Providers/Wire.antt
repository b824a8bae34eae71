-- ===== src/Providers/Wire.antt =====
-- api/v1/domain/provider/provider.go and the rest of api/v1/domain/chat/chat.go: what the drivers
-- are configured by and what they answer. An HTTP client and the JSON library are parameters.
use lucinda.Base.{
  ℕ, ◌==◌, ◌||◌, Str, lit, Map, ℤ, pos, pos_part, ltb_ℤ, wrap64, trim_right, failed, gave, List, [],
  ◌∷◌, ◌++◌, Bool, true, false, not, Result, if◌then◌else◌, ◌≡◌, arith, ◌*◌,
}
use lucinda.Hardware.{Float64, GpuSnapshot}
use lucinda.Planner.{ChatMessage, ChatRequest}

pub data ProviderType : Type 0 where
  local cloud hybrid : ProviderType

pub data ProviderStatus : Type 0 where
  initializing free busy pending error : ProviderStatus

pub record ProviderHealth : Type 0 where
  pub id : Str
  pub status : ProviderStatus
  pub timestamp : ℤ
  pub error_text : Str

pub record ProviderInfo : Type 0 where
  pub id : Str
  pub type : ProviderType
  pub models : List Str
  pub created_at : ℤ

pub record ProviderConfig : Type 0 where
  pub id : Str
  pub driver : Str
  pub host : Str
  pub port : ℤ
  pub base_url : Str
  pub api_key : Str
  pub models : List Str
  pub total_vram : ℤ
  pub max_context_tokens : ℤ
  pub timeout : ℤ

pub record Usage : Type 0 where
  pub prompt_tokens : ℤ
  pub completion_tokens : ℤ
  pub total_tokens : ℤ

pub record ChatResponse : Type 0 where
  pub id : Str
  pub model : Str
  pub message : ChatMessage
  pub done : Bool
  pub usage : Usage

pub record StreamChunk : Type 0 where
  pub delta : Str
  pub done : Bool

pub data DriverError : Type 0 where
  invalid_driver : Str → DriverError
  request_failed : Str → DriverError
  status_code : ℕ → DriverError
  decode_failed : DriverError

-- A request, and the status and the body of its answer, or the text of the client's error.
pub record HttpRequest : Type 0 where
  pub post : Bool
  pub url : Str
  pub headers : Map Str
  pub body : Str

pub record HttpResponse : Type 0 where
  pub status : ℕ
  pub body : Str

abbrev pub Client : Type 0
Client = HttpRequest → Result Str HttpResponse

-- What a driver asks for: the HTTP client, `%d`, and the clock in seconds.
pub record Net : Type 0 where
  pub client : Client
  pub show : ℤ → Str
  pub now : ℤ

-- The URL without the slashes at its end; the host and the port stand in for a missing one.
unfoldable pub server_url : (ℤ → Str) → ProviderConfig → Str
server_url show c =
    trim_right b'/' (elim c.base_url [
      | [] ↦ ((lit "http://" ++ c.host) ++ lit ":") ++ show c.port
      | d ∷ s ↦ d ∷ s
    ])

-- The timeout in nanoseconds, with the driver's own in seconds; the product wraps at 64 bits.
unfoldable pub client_timeout : ℕ → ProviderConfig → ℤ
client_timeout seconds c =
    if ltb_ℤ (pos 0) c.timeout
    then wrap64 (pos (pos_part c.timeout * 1000000000))
    else pos (seconds * 1000000000)

abbrev pub get_of : Str → HttpRequest
get_of url = record { post = false; url = url; headers = []; body = [] }

-- The answer's body, or the error; any status but 200 is one.
unfoldable pub body_of : Result Str HttpResponse → Result DriverError Str
body_of (failed text) = failed (request_failed text)
body_of (gave r) = if r.status == 200 then gave r.body else failed (status_code r.status)

-- A float other than 0 and -0.
abbrev pub is_nonzero : Float64 → Bool
is_nonzero b = not (b == 0 || b == 9223372036854775808)

-- The window of the model, where the configuration sets one.
unfoldable pub max_context_tokens : ProviderConfig → ℤ
max_context_tokens c = if ltb_ℤ (pos 0) c.max_context_tokens then c.max_context_tokens else pos 2048

-- What the rest of the program asks of a provider.
pub record ProviderOps (P : Type 0) : Type 0 where
  pub models : P → List Str
  pub window : P → ℤ
  pub gpu : P → Result DriverError GpuSnapshot
  pub health : P → P × ProviderHealth
  pub generate : P → ChatRequest → P × Result DriverError ChatResponse
  -- No driver has an empty window.
  pub window_pos : (p : P) → ltb_ℤ (pos 0) (window p) ≡ true

pub max_context_tokens_pos : (c : ProviderConfig) → ltb_ℤ (pos 0) (max_context_tokens c) ≡ true
unfolding max_context_tokens
max_context_tokens_pos c = ground arith
