-- ===== src/Providers/Vllm/Chat.antt =====
-- pkg/infrastructure_layer/provider/drivers/vllm/vllm_provider.go: requests to the model and its answers.
use lucinda.Base.{
  Str, str_eq, lit, pos, List, [], ◌∷◌, ◌++◌, Option, none, some, Bool, true, false, Result, failed,
  gave, map, if◌then◌else◌, has_prefix, trim_prefix, scan_lines, not,
}
use lucinda.Planner.{
  content_text, content_image_url, content_other, ContentPart, ChatRequest, user_message,
  zero_options,
}
use lucinda.Providers.Wire.{
  Usage, ChatResponse, StreamChunk, DriverError, decode_failed, HttpRequest, Net, body_of,
}
use lucinda.Providers.Vllm.Server.{
  Content, CompletionRequest, CompletionResponse, Codec, Vllm, next_event_id,
}

-- Requests

unfoldable pub to_openai_content : List ContentPart → List Content
to_openai_content [] = []
to_openai_content (p ∷ rest) = elim p.type [
  | content_text ↦
      record { type = lit "text"; text = p.text; image_url = none } ∷ to_openai_content rest
  | content_image_url ↦
      record {
        type = lit "image_url";
        text = [];
        image_url = some (record { url = p.image_url; detail = [] });
      }
      ∷ to_openai_content rest
  | content_other t ↦ to_openai_content rest
]

unfoldable pub build_request : ChatRequest → Bool → CompletionRequest
unfolding to_openai_content
build_request req stream = record {
  model = req.model;
  messages =
      map (λ m. record { role = m.role; content = to_openai_content m.content }) req.messages;
  stream = stream;
  temperature = req.options.temperature;
  top_p = req.options.top_p;
  max_tokens = req.options.max_tokens;
}

-- The request of `doChat` and `doChatStream`.
unfoldable pub chat_call : Codec → Vllm → CompletionRequest → HttpRequest
chat_call codec p req = record {
  post = true;
  url = p.base_url ++ lit "/v1/chat/completions";
  headers = (lit "Content-Type", lit "application/json") ∷ (elim p.config.api_key [
    | [] ↦ []
    | c ∷ s ↦ (lit "Authorization", lit "Bearer " ++ (c ∷ s)) ∷ []
  ]);
  body = codec.marshal req;
}

unfoldable pub do_chat :
    Codec → Net → Vllm → CompletionRequest → Result DriverError CompletionResponse
unfolding chat_call body_of
do_chat codec net p req = elim (body_of (net.client (chat_call codec p req))) [
  | failed e ↦ failed e
  | gave b ↦ elim (codec.decode b) [ none ↦ failed decode_failed | some r ↦ gave r ]
]

-- Answers

-- The loop over the parts of an array.
unfoldable pub read_parts : List Content → List ContentPart
read_parts [] = []
read_parts (p ∷ rest) =
    let more = read_parts rest in
    if str_eq p.type (lit "text")
    then record { type = content_text; text = p.text; image_url = [] } ∷ more
    else if str_eq p.type (lit "image_url")
    then (elim p.image_url [
      | none ↦ more
      | some u ↦ record { type = content_image_url; text = []; image_url = u.url } ∷ more
    ])
    else more

unfoldable pub parse_response_content : Codec → Str → List ContentPart
unfolding read_parts
parse_response_content codec [] = []
parse_response_content codec (c ∷ s) = elim (codec.text_of (c ∷ s)) [
  | some text ↦ record { type = content_text; text = text; image_url = [] } ∷ []
  | none ↦ elim (codec.parts_of (c ∷ s)) [ none ↦ [] | some parts ↦ read_parts parts ]
]

abbrev zero_usage : Usage
zero_usage = record { prompt_tokens = pos 0; completion_tokens = pos 0; total_tokens = pos 0 }

unfoldable pub to_chat_response : Codec → Net → Vllm → CompletionResponse → Vllm × ChatResponse
unfolding next_event_id parse_response_content
to_chat_response codec net p r = elim r.choices [
  | [] ↦
      let (p', id) = next_event_id net p in
      (
        p',
        record {
          id = id;
          model = r.model;
          message = record { role = []; content = [] };
          done = true;
          usage = zero_usage;
        },
      )
  | c ∷ more ↦ (
    p,
    record {
      id = r.id;
      model = r.model;
      message = record { role = c.role; content = parse_response_content codec c.raw };
      done = true;
      usage = r.usage;
    },
  )
]

unfoldable pub generate : Codec → Net → Vllm → ChatRequest → Vllm × Result DriverError ChatResponse
unfolding build_request do_chat to_chat_response
generate codec net p req = elim (do_chat codec net p (build_request req false)) [
  | failed e ↦ (p, failed e)
  | gave r ↦ let (p', answer) = to_chat_response codec net p r in (p', gave answer)
]

unfoldable pub warm : Codec → Net → Vllm → Str → Vllm × Option DriverError
unfolding generate user_message
warm codec net p model =
    let (p', r) = generate codec net p (record {
      model = model;
      messages = user_message (lit "warm");
      stream = false;
      options = record zero_options { max_tokens = pos 1 };
    }) in
    (p', elim r [ failed e ↦ some e | gave answer ↦ none ])

-- The loop of `Stream`: the chunks that it sends before it closes the channel. `deltas_of` gives the
-- texts of the choices of a line.
unfoldable pub stream_chunks : Codec → List Str → List StreamChunk
stream_chunks codec [] = []
stream_chunks codec (line ∷ rest) =
    let more = stream_chunks codec rest in
    if not (has_prefix line (lit "data: "))
    then more
    else if str_eq (trim_prefix line (lit "data: ")) (lit "[DONE]")
    then record { delta = []; done = true } ∷ []
    else (elim (codec.deltas_of (trim_prefix line (lit "data: "))) [
      | none ↦ more
      | some deltas ↦ elim deltas [
        | [] ↦ more
        | d ∷ others ↦ record { delta = d; done = false } ∷ more
      ]
    ])

unfoldable pub stream : Codec → Net → Vllm → ChatRequest → Result DriverError (List StreamChunk)
unfolding build_request chat_call body_of stream_chunks
stream codec net p req = elim (body_of (net.client (chat_call codec p (build_request req true)))) [
  | failed e ↦ failed e
  | gave b ↦ gave (stream_chunks codec (scan_lines b))
]
