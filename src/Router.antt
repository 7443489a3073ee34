-- ===== src/Router.antt =====
-- api/gateway_model_ids.py and api/model_router.py: the ids under which the gateway offers the models
-- of its providers, and the provider and model that a requested name leads to. A text is the list of
-- its code points; `lower` is `str.lower`.
pub mod Config
pub mod Decoded
pub mod Resolved
pub mod Catalog
pub mod Offers
mod Examples
use claude_unbound.Prelude.{
  ℕ, ◌+◌, ◌-◌, Bool, true, false, not, ◌&&◌, ◌||◌, Option, none, some, List, [], ◌∷◌, ◌++◌, reverse,
  length, if◌then◌else◌,
}
use claude_unbound.Prelude.Texts.{Text, codes, starts_with, take, same_text, among, partition}
use claude_unbound.Router.Config.{
  Settings, supported_provider_ids, parse_provider_type, parse_model_name, resolve_model,
  resolve_thinking,
}

abbrev pub gateway_model_id_prefix : Text
gateway_model_id_prefix = codes "anthropic"

abbrev pub no_thinking_gateway_model_id_prefix : Text
no_thinking_gateway_model_id_prefix = codes "claude-3-freecc-no-thinking"

abbrev pub context_window_1m_marker : Text
context_window_1m_marker = codes "[1m]"

pub record DecodedGatewayModelId : Type 0 where
  pub provider_id : Text
  pub provider_model : Text
  pub force_thinking_enabled : Option Bool

pub record ResolvedModel : Type 0 where
  pub original_model : Text
  pub provider_id : Text
  pub provider_model : Text
  pub provider_model_ref : Text
  pub thinking_enabled : Bool

-- `str.endswith`
abbrev pub ends_with : Text → Text → Bool
unfolding starts_with
ends_with end s = starts_with (reverse end) (reverse s)

abbrev pub marked : Text → Bool → Text
marked model_id context_window_1m =
    if context_window_1m then model_id ++ context_window_1m_marker else model_id

unfoldable pub gateway_model_id : Text → Bool → Text
gateway_model_id provider_model_ref context_window_1m =
    marked (gateway_model_id_prefix ++ b'/' ∷ provider_model_ref) context_window_1m

unfoldable pub no_thinking_gateway_model_id : Text → Bool → Text
no_thinking_gateway_model_id provider_model_ref context_window_1m =
    marked (no_thinking_gateway_model_id_prefix ++ b'/' ∷ provider_model_ref) context_window_1m

-- `force_thinking_enabled`, if the prefix is one of the gateway's.
unfoldable pub forced_by : Text → Option (Option Bool)
forced_by prefix =
    if same_text prefix gateway_model_id_prefix
    then some none
    else if same_text prefix no_thinking_gateway_model_id_prefix
    then some (some false)
    else none

abbrev pub forced_or : Option Bool → Bool → Bool
forced_or none b = b
forced_or (some forced) b = forced

module _ (lower : Text → Text) where
  unfoldable pub strip_context_window_marker : Text → Text
  strip_context_window_marker model_ref =
      if ends_with context_window_1m_marker (lower model_ref)
      then take (length model_ref - length context_window_1m_marker) model_ref
      else model_ref

  abbrev pub decoded_as : Option (Option Bool) → Text × Bool × Text → Option DecodedGatewayModelId
  decoded_as none parts = none
  decoded_as (some forced) (provider_id, there, []) = none
  decoded_as (some forced) (provider_id, there, c ∷ model) =
      if there
      then some (record {
        provider_id = provider_id;
        provider_model = strip_context_window_marker (c ∷ model);
        force_thinking_enabled = forced;
      })
      else none

  unfoldable pub decode_gateway_model_id : Text → Option DecodedGatewayModelId
  unfolding forced_by
  decode_gateway_model_id model_name =
      let (prefix, separator, remainder) = partition b'/' model_name in
      if separator then decoded_as (forced_by prefix) (partition b'/' remainder) else none

  -- The provider, the model and whether thinking is forced, where a name says so itself.
  abbrev pub named_directly : Text × Bool × Text → Option (Text × Text × Option Bool)
  named_directly (provider_id, separator, []) = none
  named_directly (provider_id, separator, c ∷ model) =
      if separator && among provider_id supported_provider_ids
      then some (provider_id, strip_context_window_marker (c ∷ model), none)
      else none

  abbrev pub direct_of :
      Option DecodedGatewayModelId → Text × Bool × Text → Option (Text × Text × Option Bool)
  direct_of none parts = named_directly parts
  direct_of (some d) parts =
      if among d.provider_id supported_provider_ids
      then some (d.provider_id, d.provider_model, d.force_thinking_enabled)
      else none

  unfoldable pub direct_provider_model : Text → Option (Text × Text × Option Bool)
  direct_provider_model model_name =
      direct_of (decode_gateway_model_id model_name) (partition b'/' model_name)

  abbrev pub mapped : Settings → Text → Text → Option Text → Option ResolvedModel
  mapped s name ref none = none
  mapped s name ref (some provider_model) = some (record {
    original_model = name;
    provider_id = parse_provider_type ref;
    provider_model = provider_model;
    provider_model_ref = ref;
    thinking_enabled = resolve_thinking lower s name;
  })

  abbrev pub resolved_as :
      Settings → Text → Option (Text × Text × Option Bool) → Option ResolvedModel
  resolved_as s name (some (provider_id, provider_model, forced)) = some (record {
    original_model = name;
    provider_id = provider_id;
    provider_model = provider_model;
    provider_model_ref = name;
    thinking_enabled = forced_or forced (resolve_thinking lower s provider_model);
  })
  resolved_as s name none =
      let ref = resolve_model lower s name in mapped s name ref (parse_model_name ref)

  -- `none` where the code raises IndexError.
  unfoldable pub resolve : Settings → Text → Option ResolvedModel
  unfolding direct_provider_model
  resolve s claude_model_name =
      resolved_as s claude_model_name (direct_provider_model claude_model_name)
