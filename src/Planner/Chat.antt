-- ===== src/Planner/Chat.antt =====
-- api/v1/domain/chat/chat.go and the calls of a provider in planner.go: requests, responses, and the
-- text of a response. A provider is a parameter: its models, its context window, and its answers.
use lucinda.Base.{
  Str, ℤ, pos, ltb_ℤ, List, [], ◌∷◌, ◌++◌, Option, none, some, if◌then◌else◌, ◌/◌, negsuc, neg_part,
  sub_ℕ, lit,
}
use lucinda.Base.{Bool, false}
use lucinda.Hardware.{Float64}

-- `ContentType`, a string type; `content_other` is any string without a name.
pub data ContentType : Type 0 where
  content_text content_image_url : ContentType
  content_other : Str → ContentType

pub record ContentPart : Type 0 where
  pub type : ContentType
  pub text : Str
  pub image_url : Str

pub record ChatMessage : Type 0 where
  pub role : Str
  pub content : List ContentPart

-- The floats by their bit patterns.
pub record ModelOptions : Type 0 where
  pub temperature : Float64
  pub max_tokens : ℤ
  pub top_p : Float64

abbrev pub zero_options : ModelOptions
zero_options = record { temperature = 0; max_tokens = pos 0; top_p = 0 }

-- 0.7
abbrev pub warm_temperature : Float64
warm_temperature = 0x3FE6666666666666

pub record ChatRequest : Type 0 where
  pub model : Str
  pub messages : List ChatMessage
  pub stream : Bool
  pub options : ModelOptions

-- `generate` is `none` where the call returns an error; the message of the response is what the
-- program reads of it.
pub record Provider : Type 0 where
  pub models : List Str
  pub max_context_tokens : ℤ
  pub generate : ChatRequest → Option ChatMessage

unfoldable pub new_text_content : Str → ContentPart
new_text_content text = record { type = ContentType.content_text; text = text; image_url = [] }

abbrev part_text : ContentPart → Str
part_text p = elim p.type [ content_text ↦ p.text | _ ↦ [] ]

unfoldable pub text_from_parts : List ContentPart → Str
text_from_parts [] = []
text_from_parts (p ∷ rest) = part_text p ++ text_from_parts rest

unfoldable pub text_from_response : ChatMessage → Str
unfolding text_from_parts
text_from_response m = text_from_parts m.content

unfoldable pub user_message : Str → List ChatMessage
unfolding new_text_content
user_message text = record { role = lit "user"; content = new_text_content text ∷ [] } ∷ []

-- Go's division of an `int` by 4.
abbrev quarter : ℤ → ℤ
quarter (pos n) = pos (n / 4)
quarter (negsuc n) = sub_ℕ 0 (neg_part (negsuc n) / 4)

-- A quarter of the context window, but 256 at least.
unfoldable pub plan_tokens : ℤ → ℤ
plan_tokens window = if ltb_ℤ (quarter window) (pos 256) then pos 256 else quarter window

-- `generate`: the provider for planning, its first model, and the text of its answer.
unfoldable pub generate : Option Provider → Str → Option Str
unfolding plan_tokens text_from_response user_message
generate none prompt = none
generate (some prov) prompt = elim prov.models [
  | [] ↦ none
  | model ∷ rest ↦
      elim (prov.generate (record {
        model = model;
        messages = user_message prompt;
        stream = false;
        options = record zero_options {
          temperature = warm_temperature;
          max_tokens = plan_tokens prov.max_context_tokens;
        };
      })) [ none ↦ none | some message ↦ some (text_from_response message) ]
]
