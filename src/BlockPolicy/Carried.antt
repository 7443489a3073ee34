-- ===== src/BlockPolicy/Carried.antt =====
-- Each step of core/anthropic/native_sse_block_policy.py sends on what is wanted, under the types of the
-- provider's blocks.
use mathlib.Core.Option
use mathlib.Core.List.{Sublist}
use mathlib.Core.List.Sublist
use claude_unbound.Prelude.{
  ℕ, ◌+◌, String, Bool, true, false, ◌≡◌, refl, sym, ap, ◌∙◌, subst, Option, none, some, List, [],
  ◌∷◌, ◌++◌, arith, Bool-cases, Option-cases, inl, inr,
}
use claude_unbound.Prelude.Texts.{Text}
use claude_unbound.Prelude.Table.{get, put}
use claude_unbound.BlockPolicy.State.{
  ContentBlock, Delta, Sent, start, Answer, nothing, passed, sent, UpstreamBlockState, PolicyState,
  holds, discard, Kind, text, thinking, tool_use, kind_text, delta_type_to_block_kind,
  should_drop_block_type,
}
use claude_unbound.BlockPolicy.{
  is_tool_use, close_each, synthetic_close_other_open_blocks, allocate_new_segment, started,
  start_typed, transform_start, opened_for_delta, delta_at, delta_kind, transform_delta, stop_at,
  transform_stop, synthetic_start_content_block,
}
use claude_unbound.BlockPolicy.Contract.{
  set_at, block_type_for, FitsSoFar, IsTyped, types_after, deltas_of, starts_of, wanted_delta,
  wanted_start, hidden_after,
}
use claude_unbound.BlockPolicy.Typed.{
  Typed, IsTyped-append, types_after-append, deltas_of-append, starts_of-append, put_new-Typed,
  put_old-Typed, set_kind-Typed, close_each-stops, close_each-Typed,
}

-- What goes out has the types of its blocks, has exactly the wanted deltas and at least the wanted
-- starts.
pub record Carries (kinds types : ℕ → Option Text) (hidden : List ℕ) (deltas : List Delta)
    (starts : List ContentBlock) (s : PolicyState) (out : List Sent) : Type 0 where
  pub typed : IsTyped types out
  pub keeps : Typed s.next_index s.by_upstream kinds (types_after types out)
  pub hides : s.dropped_indexes ≡ hidden
  pub all : deltas_of out ≡ deltas
  pub some_of : Sublist starts (starts_of out)

-- Nothing is said of an event that goes on as it came.
abbrev pub IsCarried :
    (ℕ → Option Text)
    → (ℕ → Option Text)
    → List ℕ
    → List Delta
    → List ContentBlock
    → PolicyState × Answer
    → Type 0
IsCarried kinds types hidden deltas starts (s, nothing) =
    Carries kinds types hidden deltas starts s []
IsCarried kinds types hidden deltas starts (s, sent out) =
    Carries kinds types hidden deltas starts s out
IsCarried kinds types hidden deltas starts (s, passed) = Unit {0}

synthetic-type :
    (decimal : ℕ → String) (kind : Kind) (i : ℕ) (stored : Option ContentBlock)
    → (synthetic_start_content_block decimal kind i stored).type ≡ some (kind_text kind)
unfolding synthetic_start_content_block
synthetic-type decimal text i stored = refl
synthetic-type decimal thinking i stored = refl
synthetic-type decimal tool_use i none = refl
synthetic-type decimal tool_use i (some b) = elim (Bool-cases (is_tool_use b.type)) [
  | inl e ↦ rw e refl
  | inr e ↦ rw e refl
]

module _ (thinking_enabled : Bool) (kinds types : ℕ → Option Text) (s : PolicyState)
    (h : Typed s.next_index s.by_upstream kinds types) where
  typed_start-IsCarried :
      (i : ℕ) (b : ContentBlock) (t : Text)
      → b.type ≡ some t
      → IsCarried (set_at i b.type kinds) types s.dropped_indexes [] (b ∷ []) (started i t b s)
  unfolding started synthetic_close_other_open_blocks allocate_new_segment
  typed_start-IsCarried i b t e =
      let (ok, same, no_delta, no_start) = close_each-stops i s.by_upstream types in
      let stops = (close_each i s.by_upstream).2 in
      let n = s.next_index in
      let seg : UpstreamBlockState = record {
        block_type = t;
        down_index = n;
        is_open = true;
        last_start_block = some b;
      } in
      record {
        typed = IsTyped-append types stops (start n b ∷ []) ok tt;
        keeps =
            subst
              (λ f.
                Typed (n + 1) (put i seg (close_each i s.by_upstream).0) (set_at i b.type kinds) f)
              (sym (
                types_after-append types stops (start n b ∷ []) ∙ ap (λ f. set_at n b.type f) same))
              (put_new-Typed n (close_each i s.by_upstream).0 kinds types
                (close_each-Typed i n s.by_upstream kinds types h) i seg b.type refl e);
        hides = refl;
        all = deltas_of-append stops (start n b ∷ []) ∙ ap (λ z. z ++ []) no_delta;
        some_of =
            subst (λ z. Sublist (b ∷ []) z)
              (sym (starts_of-append stops (start n b ∷ []) ∙ ap (λ z. z ++ b ∷ []) no_start))
              (Sublist.refl (b ∷ []));
      }

  pub start-IsCarried :
      (i : ℕ) (b : ContentBlock)
      → kinds i ≡ none
      → IsCarried
          (set_at i b.type kinds)
          types
          (hidden_after thinking_enabled i b s.dropped_indexes)
          []
          (wanted_start thinking_enabled b)
          (transform_start thinking_enabled (some i) (some b) s)
  unfolding transform_start
  start-IsCarried i b fresh = elim (Bool-cases (should_drop_block_type thinking_enabled b.type)) [
    | inl drop ↦ rw drop (record {
      typed = tt;
      keeps =
          set_kind-Typed s.next_index s.by_upstream kinds types h i b.type
            (λ seg g. absurd (ground (arith, h.kind i seg g)));
      hides = refl;
      all = refl;
      some_of = Sublist.refl [];
    })
    | inr keep_it ↦ rw keep_it (elim (Option-cases b.type) [
      | inl e ↦
          subst
            (λ z.
              IsCarried (set_at i b.type kinds) types s.dropped_indexes [] (b ∷ [])
                (start_typed i z b s))
            (sym e) tt
      | inr (t, e) ↦
          subst
            (λ z.
              IsCarried (set_at i b.type kinds) types s.dropped_indexes [] (b ∷ [])
                (start_typed i z b s))
            (sym e) (unfold started in typed_start-IsCarried i b t e)
    ])
  ]

  -- A delta for a segment that is opened for it.
  opened-IsCarried :
      (i : ℕ) (kind : Kind) (block : ContentBlock) (last : Option ContentBlock) (d : Delta)
      (stops : List ℕ)
      → block.type ≡ some (kind_text kind)
      → block_type_for d ≡ some (kind_text kind)
      → IsCarried
          (set_at i (block_type_for d) kinds)
          types
          s.dropped_indexes
          (d ∷ [])
          []
          (opened_for_delta i kind block last d (record s { pending_suppressed_stops = stops }))
  unfolding opened_for_delta allocate_new_segment
  opened-IsCarried i kind block last d stops e f =
      let seg : UpstreamBlockState = record {
        block_type = kind_text kind;
        down_index = s.next_index;
        is_open = true;
        last_start_block = last;
      } in
      record {
        typed = ((kind_text kind, ground (arith, e), f), tt);
        keeps =
            subst
              (λ z.
                Typed (s.next_index + 1) (put i seg s.by_upstream) (set_at i z kinds)
                  (set_at s.next_index block.type types))
              (e ∙ sym f)
              (put_new-Typed s.next_index s.by_upstream kinds types h i seg block.type refl e);
        hides = refl;
        all = refl;
        some_of = Sublist.cons block (Sublist.refl []);
      }

  -- What a delta says of the type of its block agrees with its segment.
  learned :
      (i : ℕ) (d : Delta)
      → FitsSoFar (kinds i) d
      → (seg : UpstreamBlockState) → get i s.by_upstream ≡ some seg
      → block_type_for d ≡ some seg.block_type
  learned i d fits seg g = subst (λ o. FitsSoFar o d) (h.kind i seg g) fits

  silent_delta :
      (i : ℕ) (d : Delta)
      → FitsSoFar (kinds i) d
      → Carries (set_at i (block_type_for d) kinds) types s.dropped_indexes [] [] s []
  silent_delta i d fits = record {
    typed = tt;
    keeps =
        set_kind-Typed s.next_index s.by_upstream kinds types h i (block_type_for d)
          (learned i d fits);
    hides = refl;
    all = refl;
    some_of = Sublist.refl [];
  }

  module _ (decimal : ℕ → String) (i : ℕ) (d : Delta) (fits : FitsSoFar (kinds i) d) where
    delta_some-IsCarried :
        (kind : Kind) (seg : UpstreamBlockState)
        → get i s.by_upstream ≡ some seg
        → block_type_for d ≡ some (kind_text kind)
        → IsCarried
            (set_at i (block_type_for d) kinds)
            types
            s.dropped_indexes
            (d ∷ [])
            []
            (delta_at decimal i kind d (some seg) s)
    unfolding delta_at
    delta_some-IsCarried kind seg g f = elim (Bool-cases seg.is_open) [
      | inl on ↦ rw on (record {
        typed = ((seg.block_type, h.shown i seg g, learned i d fits seg g), tt);
        keeps =
            set_kind-Typed s.next_index s.by_upstream kinds types h i (block_type_for d)
              (learned i d fits);
        hides = refl;
        all = refl;
        some_of = Sublist.refl [];
      })
      | inr off ↦ rw off (
          opened-IsCarried i kind
            (synthetic_start_content_block decimal kind i seg.last_start_block) seg.last_start_block
            d (discard i s.pending_suppressed_stops)
            (synthetic-type decimal kind i seg.last_start_block) f)
    ]

    delta_none-IsCarried :
        (kind : Kind)
        → block_type_for d ≡ some (kind_text kind)
        → IsCarried
            (set_at i (block_type_for d) kinds)
            types
            s.dropped_indexes
            (d ∷ [])
            []
            (delta_at decimal i kind d none s)
    unfolding delta_at
    delta_none-IsCarried thinking f = tt
    delta_none-IsCarried text f =
        let block = synthetic_start_content_block decimal text i none in
        opened-IsCarried i text block (some block) d s.pending_suppressed_stops
          (synthetic-type decimal text i none) f
    delta_none-IsCarried tool_use f =
        let block = synthetic_start_content_block decimal tool_use i none in
        opened-IsCarried i tool_use block (some block) d s.pending_suppressed_stops
          (synthetic-type decimal tool_use i none) f

    delta_kind-IsCarried :
        (kind? : Option Kind)
        → delta_type_to_block_kind d.type ≡ kind?
        → IsCarried
            (set_at i (block_type_for d) kinds)
            types
            s.dropped_indexes
            (d ∷ [])
            []
            (delta_kind decimal i kind? d s)
    delta_kind-IsCarried none e = tt
    delta_kind-IsCarried (some kind) e =
        let f : block_type_for d ≡ some (kind_text kind) = ap (Option.map kind_text) e in
        elim (Option-cases (get i s.by_upstream)) [
          | inl g ↦ rw g (delta_none-IsCarried kind f)
          | inr (seg, g) ↦ rw g (delta_some-IsCarried kind seg g f)
        ]

    pub delta-IsCarried :
        IsCarried
          (set_at i (block_type_for d) kinds)
          types
          s.dropped_indexes
          (wanted_delta thinking_enabled s.dropped_indexes i d)
          []
          (transform_delta decimal thinking_enabled (some i) (some d) s)
    unfolding transform_delta
    delta-IsCarried = elim (Bool-cases (holds i s.dropped_indexes)) [
      | inl gone ↦ rw gone (silent_delta i d fits)
      | inr kept ↦ elim (Bool-cases (should_drop_block_type thinking_enabled d.type)) [
        | inl drop ↦ rw (kept, drop) (silent_delta i d fits)
        | inr keep_it ↦
            rw (kept, keep_it) (delta_kind-IsCarried (delta_type_to_block_kind d.type) refl)
      ]
    ]

  silent_stop :
      (stops : List ℕ)
      → Carries kinds types s.dropped_indexes [] []
          (record s { pending_suppressed_stops = stops })
          []
  silent_stop stops = record {
    typed = tt;
    keeps = h;
    hides = refl;
    all = refl;
    some_of = Sublist.refl [];
  }

  stop_at-IsCarried :
      (i : ℕ)
      → IsCarried kinds types s.dropped_indexes [] []
          (stop_at thinking_enabled i (get i s.by_upstream) s)
  unfolding stop_at
  stop_at-IsCarried i = elim (Option-cases (get i s.by_upstream)) [
    | inl g ↦ rw g (elim (Bool-cases thinking_enabled) [
      | inl on ↦ rw on tt
      | inr off ↦ rw off (silent_stop s.pending_suppressed_stops)
    ])
    | inr (seg, g) ↦ rw g (elim (Bool-cases seg.is_open) [
      | inl on ↦ rw on (record {
        typed = tt;
        keeps =
            put_old-Typed s.next_index s.by_upstream kinds types h i
              (record seg { is_open = false }) seg g refl refl;
        hides = refl;
        all = refl;
        some_of = Sublist.refl [];
      })
      | inr off ↦ rw off (silent_stop s.pending_suppressed_stops)
    ])
  ]

  pub stop-IsCarried :
      (i : ℕ)
      → IsCarried kinds types s.dropped_indexes [] [] (transform_stop thinking_enabled (some i) s)
  unfolding transform_stop
  stop-IsCarried i = elim (Bool-cases (holds i s.dropped_indexes)) [
    | inl gone ↦ rw gone (silent_stop s.pending_suppressed_stops)
    | inr kept ↦ elim (Bool-cases (holds i s.pending_suppressed_stops)) [
      | inl awaited ↦ rw (kept, awaited) (silent_stop (discard i s.pending_suppressed_stops))
      | inr unexpected ↦ rw (kept, unexpected) (stop_at-IsCarried i)
    ]
  ]
