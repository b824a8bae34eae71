-- ===== src/Witnesses/Servers.antt =====
-- The theorems on the provider drivers.
use lucinda.Base.{◌≡◌, refl, Str, lit, pos, List, [], ◌∷◌, none, some, inl, inr}
use lucinda.Planner.{ContentPart, content_text, content_image_url}
use lucinda.Providers.Vllm.{Codec, to_openai_content, parse_response_content}
use lucinda.Providers.Content.{parse_response_content-to_openai_content}

-- The drivers

abbrev parts : List ContentPart
parts =
    record { type = content_text; text = lit "see"; image_url = [] }
    ∷ record { type = content_image_url; text = []; image_url = lit "http://a/b.png" }
    ∷ []

abbrev codec : Codec
codec = record {
  marshal = λ r. [];
  decode = λ s. none;
  text_of = λ s. none;
  parts_of = λ s. some (to_openai_content parts);
  deltas_of = λ s. elim s [ [] ↦ none | c ∷ d ↦ some (d ∷ []) ];
  percent = λ s. pos 0;
}

parse_response_content-to_openai_content_example :
    parse_response_content codec (lit "[...]") ≡ parts
parse_response_content-to_openai_content_example =
    parse_response_content-to_openai_content codec b'[' (lit "...]") parts
      (inl (refl, refl), (inr (refl, refl), tt)) refl refl

abbrev encode : Str → Str
encode d = b'{' ∷ d
