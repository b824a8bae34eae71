-- ===== src/Providers/Content.antt =====
-- pkg/infrastructure_layer/provider/drivers: the parts of a message on the wire, and the chunks of a
-- stream.
use lucinda.Base.{
  map, ℕ, sym, subst, ◌≡◌, refl, ◌∙◌, ap, Str, lit, List, [], ◌∷◌, ◌++◌, none, some, true, false,
  All, ◌⊎◌, inl, inr, has_prefix, trim_prefix, has_prefix-append, trim_prefix-append, str_eq,
}
use lucinda.Planner.{ContentType, content_text, content_image_url, ContentPart}
use lucinda.Providers.Wire.{StreamChunk}
use lucinda.Providers.Vllm.{
  Codec, to_openai_content, read_parts, parse_response_content, stream_chunks,
}

-- A part as `NewTextContent` or `NewImageContent` makes it.
abbrev pub Plain : ContentPart → Type 0
Plain p =
    (p.type ≡ content_text) × (p.image_url ≡ []) ⊎ (p.type ≡ content_image_url) × (p.text ≡ [])

abbrev text_part : Str → ContentPart
text_part s = record { type = content_text; text = s; image_url = [] }

abbrev image_part : Str → ContentPart
image_part u = record { type = content_image_url; text = []; image_url = u }

is_text_part : (p : ContentPart) → p.type ≡ content_text → p.image_url ≡ [] → p ≡ text_part p.text
is_text_part p t e =
    ap (λ (x : ContentType). record { type = x; text = p.text; image_url = p.image_url }) t
    ∙ ap (λ (y : Str). record { type = content_text; text = p.text; image_url = y }) e

is_image_part :
    (p : ContentPart) → p.type ≡ content_image_url → p.text ≡ [] → p ≡ image_part p.image_url
is_image_part p t e =
    ap (λ (x : ContentType). record { type = x; text = p.text; image_url = p.image_url }) t
    ∙ ap (λ (y : Str). record { type = content_image_url; text = y; image_url = p.image_url }) e

read_parts-to_openai_content :
    (parts : List ContentPart) → All Plain parts → read_parts (to_openai_content parts) ≡ parts
unfolding read_parts to_openai_content str_eq
read_parts-to_openai_content [] h = refl
read_parts-to_openai_content (p ∷ rest) h =
    let more = read_parts-to_openai_content rest h.1 in
    elim h.0 [
      | inl (t, e) ↦
          subst (λ q. read_parts (to_openai_content (q ∷ rest)) ≡ q ∷ rest)
            (sym (is_text_part p t e)) (ap (λ l. text_part p.text ∷ l) more)
      | inr (t, e) ↦
          subst (λ q. read_parts (to_openai_content (q ∷ rest)) ≡ q ∷ rest)
            (sym (is_image_part p t e)) (ap (λ l. image_part p.image_url ∷ l) more)
    ]

-- The parts of a message that the vllm driver writes into a request come back the same when an
-- answer carries them, if each part is a text or an image as the constructors of chat.go make it, and
-- the JSON library reads back what it wrote.
pub parse_response_content-to_openai_content :
    (codec : Codec) (c : ℕ) (raw : Str) (parts : List ContentPart)
    → All Plain parts
    → codec.text_of (c ∷ raw) ≡ none
    → codec.parts_of (c ∷ raw) ≡ some (to_openai_content parts)
    → parse_response_content codec (c ∷ raw) ≡ parts
unfolding parse_response_content
parse_response_content-to_openai_content codec c raw parts plain no_text wrote =
    rw (no_text, wrote, parse_response_content) (read_parts-to_openai_content parts plain)

abbrev data_line : Str → Str
data_line json = lit "data: " ++ json

abbrev chunk : Str → StreamChunk
chunk d = record { delta = d; done = false }

end_line :
    (codec : Codec) (after : List Str)
    → stream_chunks codec (data_line (lit "[DONE]") ∷ after)
      ≡ record { delta = []; done = true } ∷ []
unfolding stream_chunks has_prefix trim_prefix str_eq
end_line codec after = refl

text_line :
    (codec : Codec) (json d : Str) (others : List Str) (rest : List Str)
    → str_eq json (lit "[DONE]") ≡ false
    → codec.deltas_of json ≡ some (d ∷ others)
    → stream_chunks codec (data_line json ∷ rest) ≡ chunk d ∷ stream_chunks codec rest
unfolding stream_chunks
text_line codec json d others rest not_end text =
    rw
      (
        stream_chunks,
        has_prefix-append (lit "data: ") json,
        trim_prefix-append (lit "data: ") json,
        not_end,
        text,
      )
      refl

-- What the vllm server streams comes out of the driver as it went in: the texts one by one, then a
-- chunk that is done, whatever the server sends behind its end mark. The server's JSON is taken to
-- be none that reads as the end mark, and to hold its text as that of the first choice.
stream_chunks_lem :
    (codec : Codec) (encode : Str → Str)
    → ((d : Str) → str_eq (encode d) (lit "[DONE]") ≡ false)
    → ((d : Str) → codec.deltas_of (encode d) ≡ some (d ∷ []))
    → (texts after : List Str)
    → stream_chunks codec
        (map (λ d. data_line (encode d)) texts ++ data_line (lit "[DONE]") ∷ after)
      ≡ map (λ d. chunk d) texts ++ record { delta = []; done = true } ∷ []
stream_chunks_lem codec encode not_end decodes [] after = end_line codec after
stream_chunks_lem codec encode not_end decodes (d ∷ texts) after =
    text_line codec (encode d) d []
      (map (λ x. data_line (encode x)) texts ++ data_line (lit "[DONE]") ∷ after) (not_end d)
      (decodes d)
    ∙ ap (λ l. chunk d ∷ l) (stream_chunks_lem codec encode not_end decodes texts after)
