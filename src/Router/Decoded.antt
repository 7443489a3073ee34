-- ===== src/Router/Decoded.antt =====
-- The gateway's model ids are read back (api/gateway_model_ids.py).
use claude_unbound.Prelude.{
  ℕ, ◌+◌, ◌-◌, Bool, true, false, ◌≡◌, refl, ap, ◌∙◌, Option, none, some, [], ◌∷◌, ◌++◌, length,
  length-append, append_assoc, arith, if◌then◌else◌,
}
use claude_unbound.Prelude.Texts.{Text, take, same_text, partition-append, Lacks, lacks-Lacks}
use claude_unbound.Router.{
  gateway_model_id_prefix, no_thinking_gateway_model_id_prefix, context_window_1m_marker, ends_with,
  marked, gateway_model_id, no_thinking_gateway_model_id, forced_by, strip_context_window_marker,
  decode_gateway_model_id, decoded_as,
}

-- The prefix of the ids with thinking left to the settings, and without it.
abbrev pub id_of : Bool → Text → Bool → Text
unfolding gateway_model_id no_thinking_gateway_model_id
id_of false ref flag = gateway_model_id ref flag
id_of true ref flag = no_thinking_gateway_model_id ref flag

abbrev pub forced : Bool → Option Bool
forced false = none
forced true = some false

take-append : (s t : Text) → take (length s) (s ++ t) ≡ s
take-append [] t = refl
take-append (c ∷ s) t = ap (λ z. c ∷ z) (take-append s t)

marked-after :
    (before rest : Text) (flag : Bool)
    → marked (before ++ b'/' ∷ rest) flag ≡ before ++ b'/' ∷ marked rest flag
marked-after before rest false = refl
marked-after before rest true = append_assoc before (b'/' ∷ rest) context_window_1m_marker

gateway_bare : Lacks b'/' gateway_model_id_prefix
gateway_bare = lacks-Lacks b'/' gateway_model_id_prefix refl

no_thinking_bare : Lacks b'/' no_thinking_gateway_model_id_prefix
no_thinking_bare = lacks-Lacks b'/' no_thinking_gateway_model_id_prefix refl

gateway_known : forced_by gateway_model_id_prefix ≡ some none
unfolding forced_by same_text
gateway_known = refl

no_thinking_known : forced_by no_thinking_gateway_model_id_prefix ≡ some (some false)
unfolding forced_by same_text
no_thinking_known = refl

module _ (lower : Text → Text)
    (lower_marker : (s : Text)
      → ends_with context_window_1m_marker (lower (s ++ context_window_1m_marker)) ≡ true) where
  strip-marked : (s : Text) → strip_context_window_marker lower (s ++ context_window_1m_marker) ≡ s
  unfolding strip_context_window_marker
  strip-marked s =
      rw (lower_marker s, length-append s context_window_1m_marker)
        (ap (λ n. take n (s ++ context_window_1m_marker))
            (let back : length s + 4 - 4 ≡ length s = omega arith in back)
          ∙ take-append s context_window_1m_marker)

  -- A model that is not empty is decoded without the marker that was put after it.
  decoded_as-marked :
      (f : Option Bool) (provider : Text) (c : ℕ) (model : Text) (flag : Bool)
      → decoded_as lower (some f) (provider, true, marked (c ∷ model) flag)
        ≡ some (record {
          provider_id = provider;
          provider_model =
              if flag then c ∷ model else strip_context_window_marker lower (c ∷ model);
          force_thinking_enabled = f;
        })
  decoded_as-marked f provider c model false = refl
  decoded_as-marked f provider c model true =
      ap
        (λ z.
          some (record { provider_id = provider; provider_model = z; force_thinking_enabled = f }))
        (strip-marked (c ∷ model))

  decode-prefixed :
      (prefix provider : Text) (c : ℕ) (model : Text) (flag : Bool) (f : Option Bool)
      → Lacks b'/' prefix
      → Lacks b'/' provider
      → forced_by prefix ≡ some f
      → decode_gateway_model_id lower
          (marked (prefix ++ b'/' ∷ (provider ++ b'/' ∷ (c ∷ model))) flag)
        ≡ some (record {
          provider_id = provider;
          provider_model =
              if flag then c ∷ model else strip_context_window_marker lower (c ∷ model);
          force_thinking_enabled = f;
        })
  unfolding decode_gateway_model_id
  decode-prefixed prefix provider c model flag f no_slash bare known =
      ap (decode_gateway_model_id lower) (
        marked-after prefix (provider ++ b'/' ∷ (c ∷ model)) flag
        ∙ ap (λ z. prefix ++ b'/' ∷ z) (marked-after provider (c ∷ model) flag))
      ∙ rw
          (
            partition-append b'/' prefix (provider ++ b'/' ∷ marked (c ∷ model) flag) no_slash,
            known,
            partition-append b'/' provider (marked (c ∷ model) flag) bare,
          )
          (decoded_as-marked f provider c model flag)

  -- A reference to a model of a provider, whose name has no slash, is read back from either of its ids:
  -- the provider, the model without the context marker that the id may have, and, for the id without
  -- thinking, that thinking is off. `lower` is only asked to leave the marker at the end of a text.
  pub decode-id_of :
      (no_thinking : Bool) (provider : Text) (c : ℕ) (model : Text) (flag : Bool)
      → Lacks b'/' provider
      → decode_gateway_model_id lower (id_of no_thinking (provider ++ b'/' ∷ (c ∷ model)) flag)
        ≡ some (record {
          provider_id = provider;
          provider_model =
              if flag then c ∷ model else strip_context_window_marker lower (c ∷ model);
          force_thinking_enabled = forced no_thinking;
        })
  unfolding gateway_model_id no_thinking_gateway_model_id
  decode-id_of false provider c model flag bare =
      decode-prefixed gateway_model_id_prefix provider c model flag none gateway_bare bare
        gateway_known
  decode-id_of true provider c model flag bare =
      decode-prefixed no_thinking_gateway_model_id_prefix provider c model flag (some false)
        no_thinking_bare bare no_thinking_known
