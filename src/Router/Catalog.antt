-- ===== src/Router/Catalog.antt =====
-- The list of models that the gateway offers (api/model_catalog.py, and configured_chat_model_refs of
-- config/settings.py). Of the provider registry it reads what is cached: whether a model supports
-- thinking, and the models that were discovered. The dates and the names that are shown are texts.
use claude_unbound.Prelude.{
  Bool, true, false, Option, none, some, List, [], ◌∷◌, ◌++◌, if◌then◌else◌,
}
use claude_unbound.Prelude.Texts.{Text, codes, among, same_text}
use claude_unbound.Router.Config.{Settings, parse_provider_type, parse_model_name}
use claude_unbound.Router.{gateway_model_id, no_thinking_gateway_model_id}

pub record ModelResponse : Type 0 where
  pub id : Text
  pub display_name : Text
  pub created_at : Text

pub record ModelsListResponse : Type 0 where
  pub models : List ModelResponse
  pub first_id : Option Text
  pub has_more : Bool
  pub last_id : Option Text

pub record ConfiguredChatModelRef : Type 0 where
  pub model_ref : Text
  pub provider_id : Text
  pub model_id : Text
  pub sources : List Text

pub record Registry : Type 0 where
  pub cached_model_supports_thinking : Text → Text → Option Bool
  pub cached_prefixed_model_infos : List (Text × Option Bool)

-- The models so far, and the ids that are seen.
abbrev pub Offered : Type 0
Offered = List ModelResponse × List Text

unfoldable pub append_unique_model : ModelResponse → Offered → Offered
append_unique_model model (models, seen) =
    if among model.id seen then (models, seen) else (models ++ model ∷ [], model.id ∷ seen)

abbrev pub discovered_model_response : Text → Text → ModelResponse
discovered_model_response model_id display_name = record {
  id = model_id;
  display_name = display_name;
  created_at = codes "1970-01-01T00:00:00Z";
}

abbrev pub is_not_false : Option Bool → Bool
is_not_false none = true
is_not_false (some b) = b

unfoldable pub append_provider_model_variants : Text → Option Bool → Bool → Offered → Offered
unfolding append_unique_model
append_provider_model_variants ref supports_thinking context_window_1m offered =
    let with_thinking =
      if is_not_false supports_thinking
      then append_unique_model
          (discovered_model_response (gateway_model_id ref context_window_1m) ref) offered
      else offered in
    append_unique_model
      (discovered_model_response (no_thinking_gateway_model_id ref context_window_1m)
        (ref ++ codes " (no thinking)"))
      with_thinking

-- `sources_by_ref.setdefault(model_ref, []).append(source)`
unfoldable pub add_source : Text → Text → List (Text × List Text) → List (Text × List Text)
add_source source ref [] = (ref, source ∷ []) ∷ []
add_source source ref ((r, sources) ∷ d) =
    if same_text r ref
    then (r, sources ++ source ∷ []) ∷ d
    else (r, sources) ∷ add_source source ref d

abbrev pub add_source? : Text → Option Text → List (Text × List Text) → List (Text × List Text)
add_source? source none d = d
add_source? source (some ref) d = add_source source ref d

unfoldable pub sources_by_ref : Settings → List (Text × List Text)
unfolding add_source
sources_by_ref s = add_source? (codes "MODEL_HAIKU") s.model_haiku (
    add_source? (codes "MODEL_SONNET") s.model_sonnet
      (add_source? (codes "MODEL_OPUS") s.model_opus (add_source (codes "MODEL") s.model [])))

abbrev pub ref_of : Text → List Text → Option Text → Option ConfiguredChatModelRef
ref_of ref sources none = none
ref_of ref sources (some m) = some (record {
  model_ref = ref;
  provider_id = parse_provider_type ref;
  model_id = m;
  sources = sources;
})

abbrev pub put_first :
    Option ConfiguredChatModelRef
    → Option (List ConfiguredChatModelRef)
    → Option (List ConfiguredChatModelRef)
put_first none rest = none
put_first (some r) none = none
put_first (some r) (some rest) = some (r ∷ rest)

-- `none` where a reference has no slash, and the code raises IndexError.
unfoldable pub refs_of : List (Text × List Text) → Option (List ConfiguredChatModelRef)
refs_of [] = some []
refs_of ((ref, sources) ∷ d) = put_first (ref_of ref sources (parse_model_name ref)) (refs_of d)

unfoldable pub configured_chat_model_refs : Settings → Option (List ConfiguredChatModelRef)
unfolding sources_by_ref refs_of
configured_chat_model_refs s = refs_of (sources_by_ref s)

abbrev pub supports : Option Registry → ConfiguredChatModelRef → Option Bool
supports none ref = none
supports (some r) ref = r.cached_model_supports_thinking ref.provider_id ref.model_id

unfoldable pub append_configured :
    Settings → Option Registry → List ConfiguredChatModelRef → Offered → Offered
unfolding append_provider_model_variants
append_configured s registry [] offered = offered
append_configured s registry (ref ∷ refs) offered = append_configured s registry refs (
    append_provider_model_variants ref.model_ref (supports registry ref)
      (among ref.model_ref s.context_window_1m_models) offered)

unfoldable pub append_infos : Settings → List (Text × Option Bool) → Offered → Offered
unfolding append_provider_model_variants
append_infos s [] offered = offered
append_infos s ((model_id, supports_thinking) ∷ infos) offered = append_infos s infos (
    append_provider_model_variants model_id supports_thinking
      (among model_id s.context_window_1m_models) offered)

abbrev pub append_cached : Settings → Option Registry → Offered → Offered
append_cached s none offered = offered
append_cached s (some r) offered = append_infos s r.cached_prefixed_model_infos offered

unfoldable pub append_each : List ModelResponse → Offered → Offered
unfolding append_unique_model
append_each [] offered = offered
append_each (m ∷ ms) offered = append_each ms (append_unique_model m offered)

abbrev pub model_of : Text → Text → Text → ModelResponse
model_of id display_name created_at = record {
  id = id;
  display_name = display_name;
  created_at = created_at;
}

unfoldable pub supported_claude_models : List ModelResponse
supported_claude_models =
    model_of (codes "claude-opus-4-20250514") (codes "Claude Opus 4") (codes "2025-05-14T00:00:00Z")
    ∷ model_of (codes "claude-sonnet-4-20250514") (codes "Claude Sonnet 4")
        (codes "2025-05-14T00:00:00Z")
    ∷ model_of (codes "claude-haiku-4-20250514") (codes "Claude Haiku 4")
        (codes "2025-05-14T00:00:00Z")
    ∷ model_of (codes "claude-3-opus-20240229") (codes "Claude 3 Opus")
        (codes "2024-02-29T00:00:00Z")
    ∷ model_of (codes "claude-3-5-sonnet-20241022") (codes "Claude 3.5 Sonnet")
        (codes "2024-10-22T00:00:00Z")
    ∷ model_of (codes "claude-3-haiku-20240307") (codes "Claude 3 Haiku")
        (codes "2024-03-07T00:00:00Z")
    ∷ model_of (codes "claude-3-5-haiku-20241022") (codes "Claude 3.5 Haiku")
        (codes "2024-10-22T00:00:00Z")
    ∷ []

abbrev pub first_id_of : List ModelResponse → Option Text
first_id_of [] = none
first_id_of (m ∷ ms) = some m.id

abbrev pub last_id_of : List ModelResponse → Option Text
last_id_of [] = none
last_id_of (m ∷ []) = some m.id
last_id_of (m ∷ n ∷ ms) = last_id_of (n ∷ ms)

abbrev pub listed : List ModelResponse → ModelsListResponse
listed models = record {
  models = models;
  first_id = first_id_of models;
  has_more = false;
  last_id = last_id_of models;
}

abbrev pub built :
    Settings → Option Registry → Option (List ConfiguredChatModelRef) → Option ModelsListResponse
built s registry none = none
built s registry (some refs) = some (
    listed
      (append_each supported_claude_models
        (append_cached s registry (append_configured s registry refs ([], [])))).0)

unfoldable pub build_models_list_response : Settings → Option Registry → Option ModelsListResponse
unfolding configured_chat_model_refs append_configured append_infos append_each
build_models_list_response s registry = built s registry (configured_chat_model_refs s)
