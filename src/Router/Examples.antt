-- ===== src/Router/Examples.antt =====
-- Settings with two models (config/settings.py), and names that are resolved with them
-- (api/model_router.py).
use claude_unbound.Prelude.{
  ℕ, ◌+◌, true, false, ◌&&◌, ◌≡◌, refl, Option, none, some, [], ◌∷◌, ◌++◌, map, reverse-append, leb,
  if◌then◌else◌,
}
use mathlib.Core.List.{map-append}
use claude_unbound.Prelude.Texts.{
  Text, codes, starts_with, find, same_text, among, partition, lacks-Lacks, AreDistinct,
}
use claude_unbound.Router.Config.{
  Settings, supported_provider_ids, parse_provider_type, parse_model_name, validate_model_format,
  resolve_model,
}
use claude_unbound.Router.{
  context_window_1m_marker, ResolvedModel, ends_with, resolve, no_thinking_gateway_model_id,
  strip_context_window_marker, decode_gateway_model_id,
}
use claude_unbound.Router.Decoded.{id_of, decode-id_of}
use claude_unbound.Router.Resolved.{IsValidated, resolve-supported, resolve-id_of}
use claude_unbound.Router.Catalog.{ModelsListResponse, build_models_list_response}
use claude_unbound.Router.Offers.{ids, IsConfigured, build-offers}

-- `str.lower` on ASCII.
abbrev lower_char : ℕ → ℕ
lower_char c = if leb b'A' c && leb c b'Z' then c + 32 else c

abbrev lower : Text → Text
lower s = map lower_char s

lower_marker :
    (s : Text) → ends_with context_window_1m_marker (lower (s ++ context_window_1m_marker)) ≡ true
unfolding starts_with
lower_marker s =
    rw
      (
        map-append lower_char s context_window_1m_marker,
        reverse-append (map lower_char s) (map lower_char context_window_1m_marker),
      )
      refl

abbrev settings : Settings
settings = record {
  model = codes "groq/llama";
  model_opus = some (codes "gemini/pro");
  model_sonnet = none;
  model_haiku = none;
  enable_model_thinking = true;
  enable_opus_thinking = none;
  enable_sonnet_thinking = none;
  enable_haiku_thinking = none;
  context_window_1m_models = [];
}

settings-IsValidated : IsValidated settings
unfolding validate_model_format parse_provider_type partition among same_text supported_provider_ids
settings-IsValidated = record { model = refl; opus = refl; sonnet = tt; haiku = tt }

decode-id_of_example :
    decode_gateway_model_id lower (id_of true (codes "groq" ++ b'/' ∷ (b'm' ∷ [])) true)
    ≡ some (record {
      provider_id = codes "groq";
      provider_model = b'm' ∷ [];
      force_thinking_enabled = some false;
    })
decode-id_of_example =
    decode-id_of lower lower_marker true (codes "groq") b'm' [] true
      (lacks-Lacks b'/' (codes "groq") refl)

resolve-supported_example :
    (r : ResolvedModel) × (resolve lower settings (codes "Claude-Opus") ≡ some r)
    × (among r.provider_id supported_provider_ids ≡ true)
    × (r.original_model ≡ codes "Claude-Opus")
resolve-supported_example =
    resolve-supported lower settings (codes "Claude-Opus") settings-IsValidated

groq_known : among (codes "groq") supported_provider_ids ≡ true
unfolding among same_text supported_provider_ids
groq_known = refl

resolve-id_of_example :
    let name = id_of true (codes "groq" ++ b'/' ∷ (b'm' ∷ [])) true in
    resolve lower settings name
    ≡ some (record {
      original_model = name;
      provider_id = codes "groq";
      provider_model = b'm' ∷ [];
      provider_model_ref = name;
      thinking_enabled = false;
    })
resolve-id_of_example =
    resolve-id_of lower settings lower_marker true (codes "groq") b'm' [] true
      (lacks-Lacks b'/' (codes "groq") refl) groq_known

build-offers_example :
    (r : ModelsListResponse) × (build_models_list_response settings none ≡ some r)
    × AreDistinct (ids r.models)
    × ((ref : Text)
        → IsConfigured settings ref
        → among
            (no_thinking_gateway_model_id ref (among ref settings.context_window_1m_models))
            (ids r.models)
          ≡ true)
build-offers_example = build-offers settings none settings-IsValidated

abbrev provider_of : Option ResolvedModel → Text
provider_of none = []
provider_of (some r) = r.provider_id

opus_goes_to_gemini : provider_of (resolve lower settings (codes "Claude-Opus")) ≡ codes "gemini"
unfolding resolve resolve_model parse_model_name parse_provider_type partition find starts_with
    same_text among decode_gateway_model_id strip_context_window_marker supported_provider_ids
opus_goes_to_gemini = refl
