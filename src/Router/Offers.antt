-- ===== src/Router/Offers.antt =====
-- What the list of models offers (api/model_catalog.py).
use claude_unbound.Prelude.{
  Bool, true, ◌≡◌, ◌⊎◌, refl, sym, ap, ◌∙◌, subst, Option, none, some, List, [], ◌∷◌, ◌++◌, arith,
  Bool-cases, inl, inr, All,
}
use claude_unbound.Prelude.Texts.{
  Text, codes, among, same_text, same_text-eq, same_text_self, AreDistinct, AreDistinct-append,
  among-append,
}
use claude_unbound.Router.Config.{Settings, parse_provider_type}
use claude_unbound.Router.{gateway_model_id, no_thinking_gateway_model_id}
use claude_unbound.Router.Resolved.{IsValid, IsValid?, IsValidated, IsValid-parses}
use claude_unbound.Router.Catalog.{
  ModelResponse, ModelsListResponse, ConfiguredChatModelRef, Registry, Offered, append_unique_model,
  is_not_false, discovered_model_response, append_provider_model_variants, add_source, add_source?,
  sources_by_ref, refs_of, configured_chat_model_refs, supports, append_configured, append_infos,
  append_cached, append_each, supported_claude_models, listed, built, build_models_list_response,
}

abbrev pub ids : List ModelResponse → List Text
ids [] = []
ids (m ∷ ms) = m.id ∷ ids ms

ids-append : (ms ns : List ModelResponse) → ids (ms ++ ns) ≡ ids ms ++ ids ns
ids-append [] ns = refl
ids-append (m ∷ ms) ns = ap (λ z. m.id ∷ z) (ids-append ms ns)

-- No id stands twice, and the seen ids are those of the models.
abbrev IsOffered : Offered → Type 0
IsOffered (models, seen) =
    AreDistinct (ids models) × ((t : Text) → among t seen ≡ among t (ids models))

abbrev Keeps : Offered → Offered → Type 0
Keeps o u = (t : Text) → among t (ids o.0) ≡ true → among t (ids u.0) ≡ true

abbrev Extends : Offered → Offered → Type 0
Extends o u = IsOffered o → IsOffered u × Keeps o u

Extends-trans : (o u v : Offered) → Extends o u → Extends u v → Extends o v
Extends-trans o u v f g a = let (b, k) = f a in let (c, l) = g b in (c, λ t h. l t (k t h))

seen_more :
    (m : ModelResponse) (models : List ModelResponse) (seen : List Text)
    → ((t : Text) → among t seen ≡ among t (ids models))
    → (t : Text) → among t (m.id ∷ seen) ≡ among t (ids (models ++ m ∷ []))
unfolding among
seen_more m models seen same t = ground (
  arith,
  same t,
  ap (among t) (ids-append models (m ∷ [])),
  among-append t (ids models) (m.id ∷ []),
)

append_unique_model-Extends :
    (m : ModelResponse) (o : Offered)
    → IsOffered o
    → IsOffered (append_unique_model m o)
      × Keeps o (append_unique_model m o)
      × (among m.id (ids (append_unique_model m o).0) ≡ true)
unfolding append_unique_model among
append_unique_model-Extends m (models, seen) (distinct, same) =
    elim (Bool-cases (among m.id seen)) [
      | inl old ↦ rw old ((distinct, same), (λ t h. h), sym (same m.id) ∙ old)
      | inr new ↦
          let more = seen_more m models seen same in
          rw new (
            (
              subst AreDistinct (sym (ids-append models (m ∷ [])))
                  (AreDistinct-append (ids models) m.id (sym (same m.id) ∙ new) distinct),
              more,
            ),
            (λ t h. sym (more t) ∙ ground (arith, same t)),
            sym (more m.id) ∙ ground (arith, same_text_self m.id),
          )
    ]

-- A reference has its id without thinking among the models.
abbrev Offers : Settings → Text → Offered → Type 0
Offers s ref o =
    among (no_thinking_gateway_model_id ref (among ref s.context_window_1m_models)) (ids o.0) ≡ true

append_provider_model_variants-Extends :
    (ref : Text) (supports_thinking : Option Bool) (flag : Bool) (o : Offered)
    → IsOffered o
    → IsOffered (append_provider_model_variants ref supports_thinking flag o)
      × Keeps o (append_provider_model_variants ref supports_thinking flag o)
      × (among
            (no_thinking_gateway_model_id ref flag)
            (ids (append_provider_model_variants ref supports_thinking flag o).0)
          ≡ true)
unfolding append_provider_model_variants
append_provider_model_variants-Extends ref supports_thinking flag o a =
    elim (Bool-cases (is_not_false supports_thinking)) [
      | inr off ↦ rw off (
          append_unique_model-Extends
            (discovered_model_response (no_thinking_gateway_model_id ref flag)
              (ref ++ codes " (no thinking)"))
            o a)
      | inl on ↦
          let first = discovered_model_response (gateway_model_id ref flag) ref in
          let (b, k, h) = append_unique_model-Extends first o a in
          let (c, l, g) =
            append_unique_model-Extends
              (discovered_model_response (no_thinking_gateway_model_id ref flag)
                (ref ++ codes " (no thinking)"))
              (append_unique_model first o) b in
          rw on (c, (λ t x. l t (k t x)), g)
    ]

append_configured-Extends :
    (s : Settings) (registry : Option Registry) (refs : List ConfiguredChatModelRef)
    → (o : Offered) → IsOffered o
    → IsOffered (append_configured s registry refs o)
      × Keeps o (append_configured s registry refs o)
      × All (λ ref. Offers s ref.model_ref (append_configured s registry refs o)) refs
unfolding append_configured
append_configured-Extends s registry [] o a = (a, (λ t h. h), tt)
append_configured-Extends s registry (ref ∷ refs) o a =
    let flag = among ref.model_ref s.context_window_1m_models in
    let (b, k, h) =
      append_provider_model_variants-Extends ref.model_ref (supports registry ref) flag o a in
    let (c, l, g) =
      append_configured-Extends s registry refs
        (append_provider_model_variants ref.model_ref (supports registry ref) flag o) b in
    (c, (λ t x. l t (k t x)), (l (no_thinking_gateway_model_id ref.model_ref flag) h, g))

append_infos-Extends :
    (s : Settings) (infos : List (Text × Option Bool)) (o : Offered)
    → Extends o (append_infos s infos o)
unfolding append_infos
append_infos-Extends s [] o a = (a, λ t h. h)
append_infos-Extends s ((ref, supports_thinking) ∷ infos) o a =
    let flag = among ref s.context_window_1m_models in
    let (b, k, h) = append_provider_model_variants-Extends ref supports_thinking flag o a in
    let (c, l) =
      append_infos-Extends s infos (append_provider_model_variants ref supports_thinking flag o)
        b in
    (c, λ t x. l t (k t x))

append_cached-Extends :
    (s : Settings) (registry : Option Registry) (o : Offered)
    → Extends o (append_cached s registry o)
append_cached-Extends s none o a = (a, λ t h. h)
append_cached-Extends s (some r) o a = append_infos-Extends s r.cached_prefixed_model_infos o a

append_each-Extends : (ms : List ModelResponse) (o : Offered) → Extends o (append_each ms o)
unfolding append_each
append_each-Extends [] o a = (a, λ t h. h)
append_each-Extends (m ∷ ms) o a =
    let (b, k, h) = append_unique_model-Extends m o a in
    let (c, l) = append_each-Extends ms (append_unique_model m o) b in (c, λ t x. l t (k t x))

-- The references of the settings.
abbrev refs_in : List (Text × List Text) → List Text
refs_in [] = []
refs_in ((ref, sources) ∷ d) = ref ∷ refs_in d

add_source-IsValid :
    (source ref : Text) (d : List (Text × List Text))
    → IsValid ref
    → All IsValid (refs_in d)
    → All IsValid (refs_in (add_source source ref d))
      × (among ref (refs_in (add_source source ref d)) ≡ true)
      × ((t : Text)
          → among t (refs_in d) ≡ true
          → among t (refs_in (add_source source ref d)) ≡ true)
unfolding add_source among
add_source-IsValid source ref [] v vs = ((v, tt), ground (arith, same_text_self ref), (λ t h. cc))
add_source-IsValid source ref ((r, sources) ∷ d) v vs = elim (Bool-cases (same_text r ref)) [
  | inl e ↦ rw e (vs, ground arith, (λ t h. h))
  | inr e ↦
      let (ws, here, keeps) = add_source-IsValid source ref d v vs.1 in
      rw e ((vs.0, ws), ground arith, (λ t h. ground (arith, keeps t)))
]

add_source?-IsValid :
    (source : Text) (o : Option Text) (d : List (Text × List Text))
    → IsValid? o
    → All IsValid (refs_in d)
    → All IsValid (refs_in (add_source? source o d))
      × ((ref : Text) → o ≡ some ref → among ref (refs_in (add_source? source o d)) ≡ true)
      × ((t : Text)
          → among t (refs_in d) ≡ true
          → among t (refs_in (add_source? source o d)) ≡ true)
add_source?-IsValid source none d v vs = (vs, (λ ref e. absurd (cc)), (λ t h. h))
add_source?-IsValid source (some ref) d v vs =
    let (ws, here, keeps) = add_source-IsValid source ref d v vs in
    (
      ws,
      (λ ref' e.
          subst (λ z. among z (refs_in (add_source source ref d)) ≡ true) (some-injective e) here),
      keeps,
    )
  where
    some-injective : {x y : Text} → some x ≡ some y → x ≡ y
    some-injective e = cc

-- A model of the settings, for whichever tier.
abbrev pub IsConfigured : Settings → Text → Type 0
IsConfigured s ref =
    (s.model ≡ ref)
    ⊎ (s.model_opus ≡ some ref)
    ⊎ (s.model_sonnet ≡ some ref)
    ⊎ (s.model_haiku ≡ some ref)

sources_by_ref-IsValid :
    (s : Settings)
    → IsValidated s
    → All IsValid (refs_in (sources_by_ref s))
      × ((ref : Text) → IsConfigured s ref → among ref (refs_in (sources_by_ref s)) ≡ true)
unfolding sources_by_ref
sources_by_ref-IsValid s v =
    let d₁ = add_source (codes "MODEL") s.model [] in
    let d₂ = add_source? (codes "MODEL_OPUS") s.model_opus d₁ in
    let d₃ = add_source? (codes "MODEL_SONNET") s.model_sonnet d₂ in
    let (a, model, k) = add_source-IsValid (codes "MODEL") s.model [] v.model tt in
    let (b, opus, l) = add_source?-IsValid (codes "MODEL_OPUS") s.model_opus d₁ v.opus a in
    let (c, sonnet, m) = add_source?-IsValid (codes "MODEL_SONNET") s.model_sonnet d₂ v.sonnet b in
    let (e, haiku, n) = add_source?-IsValid (codes "MODEL_HAIKU") s.model_haiku d₃ v.haiku c in
    (
      e,
      λ ref h. elim h [
        | inl is_model ↦
            n ref (m ref (l ref (subst (λ z. among z (refs_in d₁) ≡ true) is_model model)))
        | inr (inl is_opus) ↦ n ref (m ref (opus ref is_opus))
        | inr (inr (inl is_sonnet)) ↦ n ref (sonnet ref is_sonnet)
        | inr (inr (inr is_haiku)) ↦ haiku ref is_haiku
      ],
    )

abbrev names : List ConfiguredChatModelRef → List Text
names [] = []
names (ref ∷ refs) = ref.model_ref ∷ names refs

refs_of-IsValid :
    (d : List (Text × List Text))
    → All IsValid (refs_in d)
    → (refs : List ConfiguredChatModelRef) × (refs_of d ≡ some refs) × (names refs ≡ refs_in d)
unfolding refs_of
refs_of-IsValid [] v = ([], refl, refl)
refs_of-IsValid ((ref, sources) ∷ d) (v, vs) =
    let ((m, parsed), known) = IsValid-parses ref v in
    let (refs, done, same) = refs_of-IsValid d vs in
    (
      record {
        model_ref = ref;
        provider_id = parse_provider_type ref;
        model_id = m;
        sources = sources;
      }
          ∷ refs,
      rw (parsed, done) refl,
      ap (λ z. ref ∷ z) same,
    )

offered_name :
    (s : Settings) (o : Offered) (refs : List ConfiguredChatModelRef) (t : Text)
    → All (λ ref. Offers s ref.model_ref o) refs
    → among t (names refs) ≡ true
    → Offers s t o
unfolding among
offered_name s o [] t all h = absurd (cc)
offered_name s o (ref ∷ refs) t (first, rest) h = elim (Bool-cases (same_text ref.model_ref t)) [
  | inl e ↦ subst (λ z. Offers s z o) (same_text-eq ref.model_ref t e) first
  | inr e ↦ offered_name s o refs t rest (rw e at h)
]

-- With settings that passed their validator, and whatever the registry has cached, the list is built
-- without an error, no id stands in it twice, and every model of the settings, of whichever tier, is in
-- it under its id without thinking.
pub build-offers :
    (s : Settings) (registry : Option Registry)
    → IsValidated s
    → (r : ModelsListResponse) × (build_models_list_response s registry ≡ some r)
      × AreDistinct (ids r.models)
      × ((ref : Text)
          → IsConfigured s ref
          → among
              (no_thinking_gateway_model_id ref (among ref s.context_window_1m_models))
              (ids r.models)
            ≡ true)
unfolding build_models_list_response configured_chat_model_refs
build-offers s registry v =
    let (valid_refs, configured) = sources_by_ref-IsValid s v in
    let (refs, done, same) = refs_of-IsValid (sources_by_ref s) valid_refs in
    let (a, k, offers) = append_configured-Extends s registry refs ([], []) (tt, λ t. refl) in
    let o = append_configured s registry refs ([], []) in
    let (b, l) = append_cached-Extends s registry o a in
    let (c, m) = append_each-Extends supported_claude_models (append_cached s registry o) b in
    (
      listed (append_each supported_claude_models (append_cached s registry o)).0,
      ap (built s registry) done,
      c.0,
      λ ref h.
          let id = no_thinking_gateway_model_id ref (among ref s.context_window_1m_models) in
          m id (l id (offered_name s o refs ref offers (ap (among ref) same ∙ configured ref h))),
    )
