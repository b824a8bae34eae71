-- ===== src/Providers/Ollama/Chat.antt =====
-- pkg/infrastructure_layer/provider/drivers/ollama/ollama_provider.go: requests to the model and its
-- answers.
use lucinda.Base.{
  Str, lit, ℤ, pos, add64, List, [], ◌∷◌, ◌++◌, Option, none, some, Bool, true, false, Result,
  failed, gave, map, if◌then◌else◌, scan_lines, not, ◌||◌, ◌==◌,
}
use lucinda.Capability.{is_empty}
use lucinda.Planner.{
  content_text, content_image_url, ContentPart, ChatRequest, user_message, zero_options,
  text_from_parts,
}
use lucinda.Providers.Wire.{
  ChatResponse, StreamChunk, DriverError, decode_failed, HttpRequest, Net, body_of, is_nonzero,
}
use lucinda.Providers.Ollama.Server.{OllamaRequest, OllamaResponse, Codec, Ollama, next_event_id}

-- Requests

unfoldable pub content_to_text : List ContentPart → Str
unfolding text_from_parts
content_to_text parts = text_from_parts parts

unfoldable pub content_to_images : List ContentPart → List Str
content_to_images [] = []
content_to_images (p ∷ rest) = elim p.type [
  | content_image_url ↦ p.image_url ∷ content_to_images rest
  | _ ↦ content_to_images rest
]

abbrev is_set : ℤ → Bool
is_set (pos n) = not (n == 0)
is_set n = true

unfoldable pub build_ollama_request : ChatRequest → Bool → OllamaRequest
unfolding content_to_text content_to_images
build_ollama_request req stream = record {
  model = req.model;
  messages =
      map
        (λ m. record {
          role = m.role;
          content = content_to_text m.content;
          images = content_to_images m.content;
        })
        req.messages;
  stream = stream;
  options =
      if is_nonzero o.temperature || is_nonzero o.top_p || is_set o.max_tokens
      then some
          (record { temperature = o.temperature; top_p = o.top_p; num_predict = o.max_tokens })
      else none;
}
  where
    open req use {options as o}

unfoldable pub chat_call : Codec → Ollama → OllamaRequest → HttpRequest
chat_call codec p req = record {
  post = true;
  url = p.base_url ++ lit "/api/chat";
  headers = (lit "Content-Type", lit "application/json") ∷ [];
  body = codec.marshal req;
}

unfoldable pub do_chat : Codec → Net → Ollama → OllamaRequest → Result DriverError OllamaResponse
unfolding chat_call body_of
do_chat codec net p req = elim (body_of (net.client (chat_call codec p req))) [
  | failed e ↦ failed e
  | gave b ↦ elim (codec.decode b) [ none ↦ failed decode_failed | some r ↦ gave r ]
]

-- Answers

unfoldable pub to_chat_response : Net → Ollama → OllamaResponse → Ollama × ChatResponse
unfolding next_event_id
to_chat_response net p r =
    let (p', id) = next_event_id net p in
    (
      p',
      record {
        id = id;
        model = r.model;
        message = record {
          role = r.message.role;
          content = record { type = content_text; text = r.message.content; image_url = [] } ∷ [];
        };
        done = r.done;
        usage = record {
          prompt_tokens = r.prompt_eval_count;
          completion_tokens = r.eval_count;
          total_tokens = add64 r.prompt_eval_count r.eval_count;
        };
      },
    )

unfoldable pub generate :
    Codec → Net → Ollama → ChatRequest → Ollama × Result DriverError ChatResponse
unfolding build_ollama_request do_chat to_chat_response
generate codec net p req = elim (do_chat codec net p (build_ollama_request req false)) [
  | failed e ↦ (p, failed e)
  | gave r ↦ let (p', answer) = to_chat_response net p r in (p', gave answer)
]

unfoldable pub warm : Codec → Net → Ollama → Str → Ollama × Option DriverError
unfolding generate user_message
warm codec net p model =
    let (p', r) = generate codec net p (record {
      model = model;
      messages = user_message (lit "warm");
      stream = false;
      options = record zero_options { max_tokens = pos 1 };
    }) in
    (p', elim r [ failed e ↦ some e | gave answer ↦ none ])

-- The loop of `Stream`.
unfoldable pub stream_chunks : Codec → List Str → List StreamChunk
stream_chunks codec [] = []
stream_chunks codec (line ∷ rest) =
    let more = stream_chunks codec rest in
    if is_empty line then more else (elim (codec.decode line) [
      | none ↦ more
      | some r ↦ record { delta = r.message.content; done = r.done } ∷ (if r.done then [] else more)
    ])

unfoldable pub stream : Codec → Net → Ollama → ChatRequest → Result DriverError (List StreamChunk)
unfolding build_ollama_request chat_call body_of stream_chunks
stream codec net p req =
    elim (body_of (net.client (chat_call codec p (build_ollama_request req true)))) [
      | failed e ↦ failed e
      | gave b ↦ gave (stream_chunks codec (scan_lines b))
    ]
