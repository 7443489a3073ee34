-- ===== src/Router/Config.antt =====
-- config/settings.py, class Settings: the models, their validation, and what a Claude model name
-- stands for. The supported providers are the keys of PROVIDER_CATALOG in config/provider_catalog.py.
-- `lower` is `str.lower`.
use claude_unbound.Prelude.{Bool, not, Option, none, some, List, [], ◌∷◌, is_some, if◌then◌else◌}
use claude_unbound.Prelude.Texts.{Text, codes, find, among, partition}

pub record Settings : Type 0 where
  pub model : Text
  pub model_opus : Option Text
  pub model_sonnet : Option Text
  pub model_haiku : Option Text
  pub enable_model_thinking : Bool
  pub enable_opus_thinking : Option Bool
  pub enable_sonnet_thinking : Option Bool
  pub enable_haiku_thinking : Option Bool
  pub context_window_1m_models : List Text

unfoldable pub supported_provider_ids : List Text
supported_provider_ids =
    codes "nvidia_nim"
    ∷ codes "open_router"
    ∷ codes "gemini"
    ∷ codes "vertex_ai"
    ∷ codes "deepseek"
    ∷ codes "mistral"
    ∷ codes "mistral_codestral"
    ∷ codes "opencode"
    ∷ codes "opencode_go"
    ∷ codes "wafer"
    ∷ codes "kimi"
    ∷ codes "cerebras"
    ∷ codes "cloudflare_ai"
    ∷ codes "groq"
    ∷ codes "fireworks"
    ∷ codes "zai"
    ∷ codes "lmstudio"
    ∷ codes "llamacpp"
    ∷ codes "ollama"
    ∷ codes "freebuff"
    ∷ []

-- `model_string.split("/", 1)[0]`, and `[1]`, which raises IndexError where there is no slash.
unfoldable pub parse_provider_type : Text → Text
parse_provider_type model_string = (partition b'/' model_string).0

unfoldable pub parse_model_name : Text → Option Text
parse_model_name model_string =
    let (before, there, rest) = partition b'/' model_string in if there then some rest else none

-- What the validator gives back, or one of its two errors.
pub data Validated : Type 0 where
  valid : Option Text → Validated
  no_provider : Validated
  invalid_provider : Text → Validated

unfoldable pub validate_model_format : Option Text → Validated
unfolding parse_provider_type
validate_model_format none = valid none
validate_model_format (some v) =
    if not (partition b'/' v).1
    then no_provider
    else if not (among (parse_provider_type v) supported_provider_ids)
    then invalid_provider (parse_provider_type v)
    else valid (some v)

-- The first tier that the name has and that is configured, or the fallback.
abbrev pub by_tier {ℓ} : {A : Type ℓ} → Bool → Option A → A → A
by_tier named none rest = rest
by_tier named (some a) rest = if named then a else rest

module _ (lower : Text → Text) where
  abbrev pub has_tier : Text → Text → Bool
  has_tier tier name = is_some (find tier (lower name))

  unfoldable pub resolve_model : Settings → Text → Text
  resolve_model s name = by_tier (has_tier (codes "opus") name) s.model_opus (
      by_tier (has_tier (codes "haiku") name) s.model_haiku
        (by_tier (has_tier (codes "sonnet") name) s.model_sonnet s.model))

  unfoldable pub resolve_thinking : Settings → Text → Bool
  resolve_thinking s name = by_tier (has_tier (codes "opus") name) s.enable_opus_thinking (
      by_tier (has_tier (codes "haiku") name) s.enable_haiku_thinking
        (by_tier (has_tier (codes "sonnet") name) s.enable_sonnet_thinking s.enable_model_thinking))
