-- ===== src/BlockPolicy/Accepted.antt =====
-- What core/anthropic/native_sse_block_policy.py sends on, for a provider that keeps to the protocol.
use claude_unbound.Prelude.{
  ℕ, String, Bool, true, false, ◌≡◌, refl, sym, ap, ◌∙◌, subst, Option, none, some, List, [], ◌∷◌,
  ◌++◌, map, arith, is_some, Bool-cases, Option-cases, inl, inr,
}
use claude_unbound.Prelude.Texts.{same_text-eq, Text, codes, same_text}
use mathlib.Core.List.{map-append}
use claude_unbound.Prelude.Table.{get}
use claude_unbound.Sse.Wire.{Wire, nothing_sent, check, check-append}
use claude_unbound.Sse.Blocks.{Agrees, tools_show}
use claude_unbound.BlockPolicy.State.{
  ContentBlock, Delta, Upstream, content_block_start, content_block_delta, content_block_stop,
  other, Sent, PolicyState, new_state, holds, add, discard, Kind, thinking,
  delta_type_to_block_kind, should_drop_block_type,
}
use claude_unbound.BlockPolicy.{
  started, start_typed, transform_start, transform_delta, transform_stop,
  transform_native_sse_block_event,
}
use claude_unbound.BlockPolicy.Client.{as_event, as_tools, blocks, tools-Agrees}
use claude_unbound.BlockPolicy.Orderly.{IsOrderly, run}
use claude_unbound.BlockPolicy.Sound.{Sound, IsHandled, silent, widened, unawaited, dropped}
use claude_unbound.BlockPolicy.Steps.{started-IsHandled, stop_at-IsHandled, delta_at-IsHandled}

plain_delta_kept :
    (b : Bool)
    → (should_drop_block_type b (some (codes "text_delta")) ≡ false)
      × (should_drop_block_type b (some (codes "input_json_delta")) ≡ false)
unfolding should_drop_block_type
plain_delta_kept true = (refl, refl)
plain_delta_kept false = (refl, refl)

kept_as :
    (b : Bool) (t c : Text)
    → should_drop_block_type b (some t) ≡ true
    → should_drop_block_type b (some c) ≡ false
    → same_text t c ≡ false
kept_as b t c h k = elim (Bool-cases (same_text t c)) [
  | inl e ↦
      absurd (
        dropped_both (subst (λ z. should_drop_block_type b (some z) ≡ true) (same_text-eq t c e) h))
  | inr e ↦ e
]
  where
    dropped_both : should_drop_block_type b (some c) ≡ true → ⊥
    dropped_both x = cc

-- Only reasoning is ever dropped by the type of a delta.
dropped_kind :
    (thinking_enabled : Bool) (type : Option Text) (kind : Kind)
    → delta_type_to_block_kind type ≡ some kind
    → should_drop_block_type thinking_enabled type ≡ true
    → kind ≡ thinking
unfolding delta_type_to_block_kind
dropped_kind thinking_enabled none kind e h = cc
dropped_kind thinking_enabled (some t) kind e h =
    let (text_kept, json_kept) = plain_delta_kept thinking_enabled in
    ground (
      arith,
      kept_as thinking_enabled t (codes "text_delta") h text_kept,
      kept_as thinking_enabled t (codes "input_json_delta") h json_kept,
    )

module _ (decimal : ℕ → String) (thinking_enabled : Bool) (seen : List ℕ) (s : PolicyState)
    (w : Wire) (sound : Sound seen s w) where
  transform_delta-IsHandled :
      (i : ℕ) (d : Delta)
      → is_some (delta_type_to_block_kind d.type) ≡ true
      → (delta_type_to_block_kind d.type ≡ some thinking → holds i seen ≡ true)
      → IsHandled
          (i ∷ seen)
          (content_block_delta (some i) (some d))
          w
          (transform_delta decimal thinking_enabled (some i) (some d) s)
  unfolding transform_delta
  transform_delta-IsHandled i d is_known reasons =
      elim (Option-cases (delta_type_to_block_kind d.type)) [
        | inl e ↦ absurd (ground arith)
        | inr (kind, e) ↦ elim (Bool-cases (holds i s.dropped_indexes)) [
          | inl gone ↦ rw gone (
              silent (i ∷ seen) (content_block_delta (some i) (some d)) s w
                (widened seen s w sound i (ground arith)))
          | inr kept ↦ elim (Bool-cases (should_drop_block_type thinking_enabled d.type)) [
            | inl drop ↦
                rw (kept, drop)
                  (silent (i ∷ seen) (content_block_delta (some i) (some d)) s w (
                    widened seen s w sound i (
                      sound.known i (
                        reasons (e ∙ ap some (dropped_kind thinking_enabled d.type kind e drop))))))
            | inr keep_it ↦
                rw (kept, keep_it, e)
                  (delta_at-IsHandled decimal seen s w sound i d kind kept
                    (λ k. reasons (e ∙ ap some k)))
          ]
        ]
      ]

  transform_stop-IsHandled :
      (i : ℕ)
      → holds i seen ≡ true
      → IsHandled seen (content_block_stop (some i)) w (transform_stop thinking_enabled (some i) s)
  unfolding transform_stop
  transform_stop-IsHandled i was_seen = elim (Bool-cases (holds i s.dropped_indexes)) [
    | inl gone ↦ rw gone (silent seen (content_block_stop (some i)) s w sound)
    | inr kept ↦ elim (Bool-cases (holds i s.pending_suppressed_stops)) [
      | inl awaited ↦
          let stops = discard i s.pending_suppressed_stops in
          rw (kept, awaited)
            (silent seen (content_block_stop (some i))
              (record s { pending_suppressed_stops = stops }) w (unawaited seen s w sound stops))
      | inr unexpected ↦
          rw (kept, unexpected)
            (stop_at-IsHandled seen s w sound thinking_enabled i (ground (arith, sound.known i)))
    ]
  ]

  transform_start-IsHandled :
      (i : ℕ) (b : ContentBlock)
      → holds i seen ≡ false
      → is_some b.type ≡ true
      → IsHandled
          (i ∷ seen)
          (content_block_start (some i) (some b))
          w
          (transform_start thinking_enabled (some i) (some b) s)
  unfolding transform_start
  transform_start-IsHandled i b fresh typed =
      elim (Bool-cases (should_drop_block_type thinking_enabled b.type)) [
        | inl drop ↦ rw drop (
            silent (i ∷ seen) (content_block_start (some i) (some b))
              (record s { dropped_indexes = add i s.dropped_indexes }) w (dropped seen s w sound i))
        | inr keep_it ↦ elim (Option-cases b.type) [
          | inl e ↦ absurd (ground arith)
          | inr (t, e) ↦ rw keep_it (
              subst
                (λ z.
                  IsHandled (i ∷ seen) (content_block_start (some i) (some b)) w
                    (start_typed i z b s))
                (sym e) (unfold started in started-IsHandled seen s w sound i b t fresh))
        ]
      ]

  transform-IsHandled :
      (e : Upstream) (es : List Upstream)
      → IsOrderly seen (e ∷ es)
      → (seen' : List ℕ) × IsHandled seen' e w
          (transform_native_sse_block_event decimal thinking_enabled e s)
        × IsOrderly seen' es
  unfolding transform_native_sse_block_event
  transform-IsHandled other es o = (seen, ([], refl, w, unfold check in refl, sound), o)
  transform-IsHandled (content_block_start (some i) (some b)) es o =
      (i ∷ seen, transform_start-IsHandled i b o.0 o.1, o.2)
  transform-IsHandled (content_block_delta (some i) (some d)) es o =
      (i ∷ seen, transform_delta-IsHandled i d o.0 o.1, o.2)
  transform-IsHandled (content_block_stop (some i)) es o =
      (seen, transform_stop-IsHandled i o.0, o.1)
  transform-IsHandled (content_block_start none b) es o = absurd o
  transform-IsHandled (content_block_start (some i) none) es o = absurd o
  transform-IsHandled (content_block_delta none d) es o = absurd o
  transform-IsHandled (content_block_delta (some i) none) es o = absurd o
  transform-IsHandled (content_block_stop none) es o = absurd o

new_state-Sound : Sound [] new_state nothing_sent
unfolding get holds
new_state-Sound = record {
  agrees = tools-Agrees 0 [] nothing_sent refl (λ i. refl) tt;
  keys = λ i h. cc;
  known = λ i h. cc;
}

abbrev IsSentOn : Wire → Option (PolicyState × List Sent) → Type 0
IsSentOn w r =
    (s : PolicyState) × (out : List Sent) × (r ≡ some (s, out))
    × (v : Wire) × (check (map as_event out) w ≡ some v)
    × Agrees (blocks s.next_index s.by_upstream) v

run-IsSentOn :
    (decimal : ℕ → String) (thinking_enabled : Bool) (es : List Upstream) (seen : List ℕ)
    (s : PolicyState) (w : Wire)
    → Sound seen s w
    → IsOrderly seen es
    → IsSentOn w (run decimal thinking_enabled es s)
unfolding run
run-IsSentOn decimal thinking_enabled [] seen s w sound o =
    (s, [], refl, w, unfold check in refl, sound.agrees)
run-IsSentOn decimal thinking_enabled (e ∷ es) seen s w sound o =
    let (seen', (out, sends, v, accepted, sound'), o') =
      transform-IsHandled decimal thinking_enabled seen s w sound e es o in
    let s' = (transform_native_sse_block_event decimal thinking_enabled e s).0 in
    let (s'', later, done, u, accepted', agrees) =
      run-IsSentOn decimal thinking_enabled es seen' s' v sound' o' in
    (
      s'',
      out ++ later,
      rw (sends, done) refl,
      u,
      ap (λ z. check z w) (map-append as_event out later)
          ∙ check-append (map as_event out) (map as_event later) w v accepted
          ∙ accepted',
      agrees,
    )

-- The indices of the blocks of the stream that is sent on.
pub run-accepted :
    (decimal : ℕ → String) (thinking_enabled : Bool) (es : List Upstream)
    → IsOrderly [] es
    → (s : PolicyState) × (out : List Sent) × (run decimal thinking_enabled es new_state
        ≡ some (s, out))
      × (v : Wire) × (check (map as_event out) nothing_sent ≡ some v)
      × ((i : ℕ) → v.open_at i ≡ tools_show (as_tools s.by_upstream) i)
run-accepted decimal thinking_enabled es o =
    let (s, out, done, v, accepted, agrees) =
      run-IsSentOn decimal thinking_enabled es [] new_state nothing_sent new_state-Sound o in
    (s, out, done, v, accepted, agrees.same)
