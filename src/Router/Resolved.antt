-- ===== src/Router/Resolved.antt =====
-- Where a requested model name leads (api/model_router.py), with settings that were validated
-- (config/settings.py).
use claude_unbound.Prelude.{
  ℕ, Bool, true, false, ◌≡◌, refl, ap, ◌∙◌, Option, none, some, [], ◌∷◌, ◌++◌, arith, Bool-cases,
  Option-cases, inl, inr, if◌then◌else◌,
}
use claude_unbound.Prelude.Texts.{Text, codes, among, partition, Lacks}
use claude_unbound.Router.Config.{
  Settings, supported_provider_ids, parse_provider_type, parse_model_name, valid,
  validate_model_format, by_tier, has_tier, resolve_model, resolve_thinking,
}
use claude_unbound.Router.{
  context_window_1m_marker, DecodedGatewayModelId, ResolvedModel, ends_with,
  strip_context_window_marker, decode_gateway_model_id, named_directly, direct_of,
  direct_provider_model, mapped, resolved_as, resolve, forced_or,
}
use claude_unbound.Router.Decoded.{id_of, decode-id_of}

-- A configured model passes the validator of the settings.
abbrev pub IsValid : Text → Type 0
IsValid ref = validate_model_format (some ref) ≡ valid (some ref)

abbrev pub IsValid? : Option Text → Type 0
IsValid? none = Unit {0}
IsValid? (some ref) = IsValid ref

pub record IsValidated (s : Settings) : Type 0 where
  pub model : IsValid s.model
  pub opus : IsValid? s.model_opus
  pub sonnet : IsValid? s.model_sonnet
  pub haiku : IsValid? s.model_haiku

-- A valid reference has a provider that is supported, and a model.
pub IsValid-parses :
    (ref : Text)
    → IsValid ref
    → ((m : Text) × (parse_model_name ref ≡ some m))
      × (among (parse_provider_type ref) supported_provider_ids ≡ true)
unfolding validate_model_format parse_model_name
IsValid-parses ref v = elim (Bool-cases (partition b'/' ref).1) [
  | inr bare ↦ absurd (ground arith)
  | inl there ↦ elim (Bool-cases (among (parse_provider_type ref) supported_provider_ids)) [
    | inr unknown ↦ absurd (ground arith)
    | inl known ↦ (((partition b'/' ref).2, rw there refl), known)
  ]
]

by_tier-IsValid :
    (named : Bool) (o : Option Text) (rest : Text)
    → IsValid? o
    → IsValid rest
    → IsValid (by_tier named o rest)
by_tier-IsValid named none rest v w = w
by_tier-IsValid true (some ref) rest v w = v
by_tier-IsValid false (some ref) rest v w = w

module _ (lower : Text → Text) (s : Settings) where
  resolve_model-IsValid : (name : Text) → IsValidated s → IsValid (resolve_model lower s name)
  unfolding resolve_model
  resolve_model-IsValid name v =
      by_tier-IsValid (has_tier lower (codes "opus") name) s.model_opus _ v.opus (
        by_tier-IsValid (has_tier lower (codes "haiku") name) s.model_haiku _ v.haiku (
          by_tier-IsValid (has_tier lower (codes "sonnet") name) s.model_sonnet _ v.sonnet v.model))

  named_directly-supported :
      (parts : Text × Bool × Text) (d : Text × Text × Option Bool)
      → named_directly lower parts ≡ some d
      → among d.0 supported_provider_ids ≡ true
  named_directly-supported (p, there, []) d e = cc
  named_directly-supported (p, there, c ∷ m) (q, n, f) e = ground arith

  direct_of-supported :
      (o : Option DecodedGatewayModelId) (parts : Text × Bool × Text)
      (d : Text × Text × Option Bool)
      → direct_of lower o parts ≡ some d
      → among d.0 supported_provider_ids ≡ true
  direct_of-supported none parts d e = named_directly-supported parts d e
  direct_of-supported (some g) parts (q, n, f) e = ground arith

  -- With settings that passed their validator, every name, whatever it is, is resolved without an error,
  -- and to a provider that is supported.
  pub resolve-supported :
      (name : Text)
      → IsValidated s
      → (r : ResolvedModel) × (resolve lower s name ≡ some r)
        × (among r.provider_id supported_provider_ids ≡ true)
        × (r.original_model ≡ name)
  unfolding resolve direct_provider_model
  resolve-supported name v = elim (Option-cases (direct_provider_model lower name)) [
    | inr ((p, m, f), e) ↦ (
      record {
        original_model = name;
        provider_id = p;
        provider_model = m;
        provider_model_ref = name;
        thinking_enabled = forced_or f (resolve_thinking lower s m);
      },
      ap (resolved_as lower s name) e,
      direct_of-supported (decode_gateway_model_id lower name) (partition b'/' name) (p, m, f) e,
      refl,
    )
    | inl e ↦
        let ref = resolve_model lower s name in
        let ((m, parsed), known) = IsValid-parses ref (resolve_model-IsValid name v) in
        (
          record {
            original_model = name;
            provider_id = parse_provider_type ref;
            provider_model = m;
            provider_model_ref = ref;
            thinking_enabled = resolve_thinking lower s name;
          },
          ap (resolved_as lower s name) e ∙ ap (mapped lower s name ref) parsed,
          known,
          refl,
        )
  ]

  -- An id of the gateway for a model of a supported provider leads back to that provider and model; the
  -- id without thinking switches thinking off whatever the settings say, the other leaves it to them.
  pub resolve-id_of :
      ((t : Text)
        → ends_with context_window_1m_marker (lower (t ++ context_window_1m_marker)) ≡ true)
      → (no_thinking : Bool) (provider : Text) (c : ℕ) (model : Text) (flag : Bool)
      → Lacks b'/' provider
      → among provider supported_provider_ids ≡ true
      → let name = id_of no_thinking (provider ++ b'/' ∷ (c ∷ model)) flag in
        let plain = if flag then c ∷ model else strip_context_window_marker lower (c ∷ model) in
        resolve lower s name
        ≡ some (record {
          original_model = name;
          provider_id = provider;
          provider_model = plain;
          provider_model_ref = name;
          thinking_enabled = if no_thinking then false else resolve_thinking lower s plain;
        })
  unfolding resolve direct_provider_model
  resolve-id_of lower_marker false provider c model flag bare known =
      rw (decode-id_of lower lower_marker false provider c model flag bare, known) refl
  resolve-id_of lower_marker true provider c model flag bare known =
      rw (decode-id_of lower lower_marker true provider c model flag bare, known) refl
