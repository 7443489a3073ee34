-- ===== src/BlockPolicy/Hidden.antt =====
-- What core/anthropic/native_sse_block_policy.py leaves out where thinking is switched off.
use claude_unbound.Prelude.{
  ℕ, String, Bool, true, false, ◌≡◌, ◌≢◌, refl, sym, ap, subst, Option, none, some, [], ◌∷◌, arith,
  All, All-append, if◌then◌else◌, Bool-cases, inl, inr,
}
use claude_unbound.Prelude.Texts.{same_text-eq, Text, codes, starts_with, find, same_text}
use claude_unbound.Prelude.Table.{Table, get}
use claude_unbound.BlockPolicy.State.{
  ContentBlock, Delta, Upstream, content_block_start, content_block_delta, content_block_stop,
  other, Sent, start, delta, stop, Answer, nothing, passed, sent, UpstreamBlockState, PolicyState,
  within, holds, Kind, text, thinking, tool_use, delta_type_to_block_kind, should_drop_block_type,
}
use claude_unbound.BlockPolicy.{
  is_tool_use, tool_start, close_each, synthetic_close_other_open_blocks, allocate_new_segment,
  started, start_typed, transform_start, opened_for_delta, delta_at, delta_kind, transform_delta,
  stop_at, transform_stop, transform_native_sse_block_event, synthetic_start_content_block,
}

-- The type speaks of thinking.
abbrev pub speaks_of : Option Text → Bool
speaks_of none = false
speaks_of (some t) = within (codes "thinking") t

abbrev pub IsHidden : Sent → Type 0
IsHidden (start i b) = speaks_of b.type ≡ false
IsHidden (delta i d) = speaks_of d.type ≡ false
IsHidden (stop i) = Unit {0}

-- The provider's event, where it is sent on as it is.
abbrev pub IsHiddenRaw : Upstream → Type 0
IsHiddenRaw (content_block_start i (some b)) = speaks_of b.type ≡ false
IsHiddenRaw (content_block_delta i (some d)) = speaks_of d.type ≡ false
IsHiddenRaw _ = Unit {0}

abbrev pub Hides : Upstream → Answer → Type 0
Hides e nothing = Unit {0}
Hides e passed = IsHiddenRaw e
Hides e (sent out) = All IsHidden out

-- The event has a number for an index, and a signature comes for a block that was left out.
abbrev pub IsUsual : PolicyState → Upstream → Type 0
IsUsual s (content_block_start none b) = ⊥
IsUsual s (content_block_delta none d) = ⊥
IsUsual s (content_block_delta (some i) (some d)) =
    d.type ≡ some (codes "signature_delta") → holds i s.dropped_indexes ≡ true
IsUsual s _ = Unit {0}

not_spoken : (redacted spoken : Bool) → (if redacted then true else spoken) ≡ false → spoken ≡ false
not_spoken true spoken h = cc
not_spoken false spoken h = h

kept-speaks_of :
    (type : Option Text) → should_drop_block_type false type ≡ false → speaks_of type ≡ false
unfolding should_drop_block_type
kept-speaks_of none h = refl
kept-speaks_of (some t) h =
    not_spoken (starts_with (codes "redacted_thinking") t) (within (codes "thinking") t) h

thinking_delta-dropped : should_drop_block_type false (some (codes "thinking_delta")) ≡ true
unfolding should_drop_block_type
thinking_delta-dropped = refl

-- A delta that is kept, and no signature, is of text or of a tool.
kept-kind :
    (type : Option Text) (kind : Kind)
    → should_drop_block_type false type ≡ false
    → type ≢ some (codes "signature_delta")
    → delta_type_to_block_kind type ≡ some kind
    → kind ≢ thinking
unfolding delta_type_to_block_kind
kept-kind none kind h n e k = cc
kept-kind (some t) kind h n e k = elim (Bool-cases (same_text t (codes "thinking_delta"))) [
  | inl a ↦
      let seen : should_drop_block_type false (some t) ≡ true =
        subst (λ z. should_drop_block_type false (some z) ≡ true)
          (sym (same_text-eq t (codes "thinking_delta") a)) thinking_delta-dropped in
      absurd (cc)
  | inr a ↦ elim (Bool-cases (same_text t (codes "signature_delta"))) [
    | inl b ↦ n (ap some (same_text-eq t (codes "signature_delta") b))
    | inr b ↦ absurd (ground arith)
  ]
]

stops-IsHidden : (i : ℕ) (t : Table UpstreamBlockState) → All IsHidden (close_each i t).2
unfolding close_each
stops-IsHidden i [] = tt
stops-IsHidden i ((k, seg) ∷ t) = ground (arith, stops-IsHidden i t)

module _ (decimal : ℕ → String) where
  synthetic_hidden :
      (kind : Kind) (i : ℕ) (stored : Option ContentBlock)
      → kind ≢ thinking
      → speaks_of (synthetic_start_content_block decimal kind i stored).type ≡ false
  unfolding synthetic_start_content_block find starts_with
  synthetic_hidden thinking i stored n = absurd (n refl)
  synthetic_hidden text i stored n = refl
  synthetic_hidden tool_use i none n = refl
  synthetic_hidden tool_use i (some b) n = either (is_tool_use b.type)
    where
      either :
          (x : Bool)
          → speaks_of
              (if x
                then tool_start decimal i b.id b.name b.input
                else tool_start decimal i none none none).type
            ≡ false
      either true = refl
      either false = refl

typed_hidden :
    (i : ℕ) (b : ContentBlock) (s : PolicyState) (type : Option Text)
    → speaks_of b.type ≡ false
    → Hides (content_block_start (some i) (some b)) (start_typed i type b s).1
unfolding started synthetic_close_other_open_blocks allocate_new_segment
typed_hidden i b s none hidden = hidden
typed_hidden i b s (some t) hidden =
    All-append IsHidden (close_each i s.by_upstream).2 (start s.next_index b ∷ [])
      (stops-IsHidden i s.by_upstream) (hidden, tt)

start_hidden :
    (i : ℕ) (b : ContentBlock) (s : PolicyState)
    → Hides (content_block_start (some i) (some b)) (transform_start false (some i) (some b) s).1
unfolding transform_start
start_hidden i b s = elim (Bool-cases (should_drop_block_type false b.type)) [
  | inl drop ↦ rw drop tt
  | inr kept ↦ rw kept (typed_hidden i b s b.type (kept-speaks_of b.type kept))
]

stop_hidden :
    (i : ℕ) (seg : Option UpstreamBlockState) (s : PolicyState)
    → Hides (content_block_stop (some i)) (stop_at false i seg s).1
unfolding stop_at
stop_hidden i none s = tt
stop_hidden i (some seg) s = ground arith

transform_stop_hidden :
    (index : Option ℕ) (s : PolicyState)
    → Hides (content_block_stop index) (transform_stop false index s).1
unfolding transform_stop
transform_stop_hidden none s = tt
transform_stop_hidden (some i) s = ground (arith, stop_hidden i (get i s.by_upstream) s)

module _ (decimal : ℕ → String) (i : ℕ) (d : Delta) (hidden : speaks_of d.type ≡ false) where
  delta_at_hidden :
      (kind : Kind) (seg : Option UpstreamBlockState) (s : PolicyState)
      → kind ≢ thinking
      → Hides (content_block_delta (some i) (some d)) (delta_at decimal i kind d seg s).1
  unfolding delta_at opened_for_delta allocate_new_segment
  delta_at_hidden thinking seg s n = absurd (n refl)
  delta_at_hidden text none s n = (synthetic_hidden decimal text i none n, (hidden, tt))
  delta_at_hidden tool_use none s n = (synthetic_hidden decimal tool_use i none n, (hidden, tt))
  delta_at_hidden text (some seg) s n =
      ground (arith, synthetic_hidden decimal text i seg.last_start_block n)
  delta_at_hidden tool_use (some seg) s n =
      ground (arith, synthetic_hidden decimal tool_use i seg.last_start_block n)

  kinded_hidden :
      (kind : Option Kind) (s : PolicyState)
      → (kind ≢ some thinking)
      → Hides (content_block_delta (some i) (some d)) (delta_kind decimal i kind d s).1
  kinded_hidden none s n = hidden
  kinded_hidden (some kind) s n = delta_at_hidden kind (get i s.by_upstream) s (λ e. n (ap some e))

delta_hidden :
    (decimal : ℕ → String) (i : ℕ) (d : Delta) (s : PolicyState)
    → (d.type ≡ some (codes "signature_delta") → holds i s.dropped_indexes ≡ true)
    → Hides
        (content_block_delta (some i) (some d))
        (transform_delta decimal false (some i) (some d) s).1
unfolding transform_delta
delta_hidden decimal i d s signed = elim (Bool-cases (holds i s.dropped_indexes)) [
  | inl gone ↦ rw gone tt
  | inr here ↦ elim (Bool-cases (should_drop_block_type false d.type)) [
    | inl drop ↦ rw (here, drop) tt
    | inr kept ↦
        rw (here, kept)
          (kinded_hidden decimal i d (kept-speaks_of d.type kept) (delta_type_to_block_kind d.type)
            s (λ e. kept-kind d.type thinking kept (λ n. absurd (clash (signed n) here)) e refl))
  ]
]
  where
    clash : {x : Bool} → x ≡ true → x ≡ false → ⊥
    clash p q = cc

-- With thinking switched off, whatever the state and the stream before: if the event has a number for
-- its index, and is no signature of a block that was not left out, then nothing that goes out for it,
-- neither a new event nor the event itself, is a block or a delta whose type speaks of thinking.
pub thinking-hidden :
    (decimal : ℕ → String) (s : PolicyState) (e : Upstream)
    → IsUsual s e
    → Hides e (transform_native_sse_block_event decimal false e s).1
unfolding transform_native_sse_block_event transform_start transform_delta
thinking-hidden decimal s (content_block_start (some i) (some b)) u = start_hidden i b s
thinking-hidden decimal s (content_block_start (some i) none) u = tt
thinking-hidden decimal s (content_block_start none b) u = absurd u
thinking-hidden decimal s (content_block_delta (some i) (some d)) u = delta_hidden decimal i d s u
thinking-hidden decimal s (content_block_delta (some i) none) u = tt
thinking-hidden decimal s (content_block_delta none d) u = absurd u
thinking-hidden decimal s (content_block_stop index) u = transform_stop_hidden index s
thinking-hidden decimal s other u = tt
