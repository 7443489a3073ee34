-- ===== src/BlockPolicy/Steps.antt =====
-- Each step of core/anthropic/native_sse_block_policy.py keeps the client's agreement with the
-- segments.
use claude_unbound.Prelude.{
  ℕ, String, Bool, true, false, ◌||◌, ◌≡◌, ◌≢◌, refl, sym, ap, ◌∙◌, subst, Option, none, some, List,
  [], ◌∷◌, ◌++◌, map, arith, is_some, if◌then◌else◌, Bool-cases, Option-cases, inl, inr,
}
use claude_unbound.Prelude.Texts.{Text}
use mathlib.Core.List.{map-append}
use claude_unbound.Prelude.Table.{get, get-put}
use claude_unbound.Sse
use claude_unbound.Sse.Wire.{Wire, accept, check, check-append, check-one, opened, closed}
use claude_unbound.Sse.Protocol.{started-accepted}
use claude_unbound.BlockPolicy.State.{
  ContentBlock, Delta, content_block_start, content_block_delta, content_block_stop, start, delta,
  stop, sent, UpstreamBlockState, PolicyState, holds, discard, Kind, text, thinking, tool_use,
  kind_text,
}
use claude_unbound.BlockPolicy.{
  close_each, synthetic_close_other_open_blocks, allocate_new_segment, started, opened_for_delta,
  delta_at, stop_at, synthetic_start_content_block,
}
use claude_unbound.BlockPolicy.Client.{
  as_event, blocks, opened_segment-Agrees, closed_segment-Agrees, open_segment, close_each-get,
  close_each-Agrees,
}
use claude_unbound.BlockPolicy.Sound.{Sound, IsHandled, silent, opened_keys, widened, unawaited}

module _ (seen : List ℕ) (s : PolicyState) (w : Wire) (sound : Sound seen s w) where
  unstarted : (i : ℕ) → holds i seen ≡ false → get i s.by_upstream ≡ none
  unstarted i fresh = elim (Option-cases (get i s.by_upstream)) [
    | inl e ↦ e
    | inr (seg, e) ↦ absurd (ground (arith, sound.keys i))
  ]

  pub started-IsHandled :
      (i : ℕ) (b : ContentBlock) (t : Text)
      → holds i seen ≡ false
      → IsHandled (i ∷ seen) (content_block_start (some i) (some b)) w (started i t b s)
  unfolding started synthetic_close_other_open_blocks allocate_new_segment
  started-IsHandled i b t fresh =
      let n = s.next_index in
      let rest = (close_each i s.by_upstream).0 in
      let seg : UpstreamBlockState = record {
        block_type = t;
        down_index = n;
        is_open = true;
        last_start_block = some b;
      } in
      let none_there = unstarted i fresh in
      let (v, stops, agrees) = close_each-Agrees i n s.by_upstream w sound.agrees none_there in
      let (keys, known) =
        opened_keys i seg rest seen s.dropped_indexes
          (λ j h. sound.keys j (sym (close_each-get i s.by_upstream j) ∙ h))
          (λ j h.
            ap (λ x. holds j s.dropped_indexes || x) (close_each-get i s.by_upstream j)
            ∙ sound.known j h) in
      (
        (close_each i s.by_upstream).2 ++ start n b ∷ [],
        refl,
        opened n v,
        ap (λ es. check es w) (map-append as_event (close_each i s.by_upstream).2 (start n b ∷ []))
            ∙ check-append (map as_event (close_each i s.by_upstream).2) (as_event (start n b) ∷ [])
                w v stops
            ∙ check-one (as_event (start n b)) v (opened n v)
                (started-accepted (blocks n rest) v Sse.text agrees),
        record {
          agrees =
              opened_segment-Agrees n rest v agrees i seg refl refl
                (λ old g. absurd (ground (arith, close_each-get i s.by_upstream i)));
          keys = keys;
          known = known;
        },
      )

  opened-IsHandled :
      (i : ℕ) (kind : Kind) (b : ContentBlock) (last : Option ContentBlock) (d : Delta)
      → ((old : UpstreamBlockState) → get i s.by_upstream ≡ some old → old.is_open ≡ false)
      → IsHandled
          (i ∷ seen)
          (content_block_delta (some i) (some d))
          w
          (opened_for_delta i kind b last d s)
  unfolding opened_for_delta allocate_new_segment
  opened-IsHandled i kind b last d free =
      let n = s.next_index in
      let seg : UpstreamBlockState = record {
        block_type = kind_text kind;
        down_index = n;
        is_open = true;
        last_start_block = last;
      } in
      let (keys, known) =
        opened_keys i seg s.by_upstream seen s.dropped_indexes sound.keys sound.known in
      (
        start n b ∷ delta n d ∷ [],
        refl,
        opened n w,
        check-append (as_event (start n b) ∷ []) (as_event (delta n d) ∷ []) w (opened n w) (
              check-one (as_event (start n b)) w (opened n w)
                (started-accepted (blocks n s.by_upstream) w Sse.text sound.agrees))
            ∙ check-one (as_event (delta n d)) (opened n w) (opened n w)
                (unfold accept in ground arith),
        record {
          agrees = opened_segment-Agrees n s.by_upstream w sound.agrees i seg refl refl free;
          keys = keys;
          known = known;
        },
      )

  pub stop_at-IsHandled :
      (thinking_enabled : Bool) (i : ℕ)
      → is_some (get i s.by_upstream) ≡ true
      → IsHandled seen
          (content_block_stop (some i))
          w
          (stop_at thinking_enabled i (get i s.by_upstream) s)
  unfolding stop_at
  stop_at-IsHandled thinking_enabled i there = elim (Option-cases (get i s.by_upstream)) [
    | inl e ↦ absurd (ground arith)
    | inr (seg, e) ↦ rw e (elim (Bool-cases seg.is_open) [
      | inl on ↦ rw on (
        stop seg.down_index ∷ [],
        refl,
        closed seg.down_index w,
        check-one (as_event (stop seg.down_index)) w (closed seg.down_index w) (
            unfold accept in
            rw (open_segment s.next_index s.by_upstream w sound.agrees i seg e on) refl),
        record {
          agrees = closed_segment-Agrees s.next_index s.by_upstream w sound.agrees i seg e on;
          keys = λ j h.
              ground
                (arith, get-put j i (record seg { is_open = false }) s.by_upstream, sound.keys j);
          known = λ j h.
              ground
                (arith, get-put j i (record seg { is_open = false }) s.by_upstream, sound.known j);
        },
      )
      | inr off ↦ rw off (silent seen (content_block_stop (some i)) s w sound)
    ])
  ]

  delta_open :
      (i : ℕ) (d : Delta) (seg : UpstreamBlockState)
      → get i s.by_upstream ≡ some seg
      → seg.is_open ≡ true
      → IsHandled
          (i ∷ seen)
          (content_block_delta (some i) (some d))
          w
          (s, sent (delta seg.down_index d ∷ []))
  delta_open i d seg e on = (
    delta seg.down_index d ∷ [],
    refl,
    w,
    check-one (as_event (delta seg.down_index d)) w w (
        unfold accept in
        rw (open_segment s.next_index s.by_upstream w sound.agrees i seg e on) refl),
    widened seen s w sound i (ground arith),
  )

module _ (decimal : ℕ → String) (seen : List ℕ) (s : PolicyState) (w : Wire)
    (sound : Sound seen s w) (i : ℕ) (d : Delta) where
  delta_none :
      (kind : Kind)
      → get i s.by_upstream ≡ none
      → kind ≢ thinking
      → IsHandled
          (i ∷ seen)
          (content_block_delta (some i) (some d))
          w
          (delta_at decimal i kind d none s)
  unfolding delta_at
  delta_none thinking e k = absurd (k refl)
  delta_none text e k =
      let block = synthetic_start_content_block decimal text i none in
      opened-IsHandled seen s w sound i text block (some block) d (λ old g. absurd (ground arith))
  delta_none tool_use e k =
      let block = synthetic_start_content_block decimal tool_use i none in
      opened-IsHandled seen s w sound i tool_use block (some block) d
        (λ old g. absurd (ground arith))

  delta_some :
      (kind : Kind) (seg : UpstreamBlockState)
      → get i s.by_upstream ≡ some seg
      → IsHandled
          (i ∷ seen)
          (content_block_delta (some i) (some d))
          w
          (delta_at decimal i kind d (some seg) s)
  unfolding delta_at
  delta_some kind seg e =
      let waiting = record s { pending_suppressed_stops = discard i s.pending_suppressed_stops } in
      let reopened =
        opened_for_delta i kind (synthetic_start_content_block decimal kind i seg.last_start_block)
          seg.last_start_block d waiting in
      let answer = λ (b : Bool). if b then (s, sent (delta seg.down_index d ∷ [])) else reopened in
      let handled =
        λ (b : Bool). IsHandled (i ∷ seen) (content_block_delta (some i) (some d)) w (answer b) in
      elim (Bool-cases seg.is_open) [
        | inl on ↦ subst handled (sym on) (delta_open seen s w sound i d seg e on)
        | inr off ↦ subst handled (sym off) (
            opened-IsHandled seen waiting w
              (unawaited seen s w sound (discard i s.pending_suppressed_stops)) i kind
              (synthetic_start_content_block decimal kind i seg.last_start_block)
              seg.last_start_block d (λ old g. ground arith))
      ]

  -- A delta for an index that is not dropped.
  pub delta_at-IsHandled :
      (kind : Kind)
      → holds i s.dropped_indexes ≡ false
      → (kind ≡ thinking → holds i seen ≡ true)
      → IsHandled
          (i ∷ seen)
          (content_block_delta (some i) (some d))
          w
          (delta_at decimal i kind d (get i s.by_upstream) s)
  delta_at-IsHandled kind kept reasons = elim (Option-cases (get i s.by_upstream)) [
    | inl e ↦ rw e (delta_none kind e (λ k. absurd (ground (arith, sound.known i (reasons k)))))
    | inr (seg, e) ↦ rw e (delta_some kind seg e)
  ]
