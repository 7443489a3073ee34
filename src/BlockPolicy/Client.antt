-- ===== src/BlockPolicy/Client.antt =====
-- The segments of core/anthropic/native_sse_block_policy.py as a client of the stream sees them. A
-- segment is to the client what a tool block of the builder is: a block with an index that is open or
-- not, so the laws of Sse serve for both.
use claude_unbound.Prelude.{
  ℕ, ◌+◌, true, false, ◌≡◌, refl, sym, ap, ◌∙◌, subst, Option, none, some, [], ◌∷◌, map, arith, eqb,
  is_some, Bool-cases, inl, inr,
}
use mathlib.Core.Option
use claude_unbound.Prelude.Table.{pos, Table, get, put}
use claude_unbound.Sse
use claude_unbound.Sse.{Event, ToolCallState, ContentBlockManager, new_tool, no_blocks, stop_tools}
use claude_unbound.Sse.Wire.{Wire, check, opened, closed}
use claude_unbound.Sse.Blocks.{
  Agrees, AreApart, tools_show, tool_open, tools_show-put_closed, AreApart-put_closed,
}
use claude_unbound.Sse.Moves.{opened_tool-Agrees}
use claude_unbound.Sse.Protocol.{stop_tools-closes, stop_tools-next}
use claude_unbound.BlockPolicy.State.{Sent, start, delta, stop, UpstreamBlockState}
use claude_unbound.BlockPolicy.{close_each}

-- What the client makes of an event: its kind and its index.
abbrev pub as_event : Sent → Event
as_event (start i b) = Sse.content_block_start (pos i) Sse.text
as_event (delta i d) = Sse.content_block_delta (pos i) (Sse.text_delta "")
as_event (stop i) = Sse.content_block_stop (pos i)

abbrev pub as_tool : UpstreamBlockState → ToolCallState
as_tool seg = record (new_tool "") { block_index = pos seg.down_index; started = seg.is_open }

abbrev pub as_tools : Table UpstreamBlockState → Table ToolCallState
as_tools [] = []
as_tools ((k, seg) ∷ t) = (k, as_tool seg) ∷ as_tools t

abbrev pub blocks : ℕ → Table UpstreamBlockState → ContentBlockManager
blocks n t = record no_blocks { next_index = n; tool_states = as_tools t }

pub get-as_tools :
    (k : ℕ) (t : Table UpstreamBlockState) → get k (as_tools t) ≡ Option.map as_tool (get k t)
unfolding get
get-as_tools k [] = refl
get-as_tools k ((j, seg) ∷ t) = elim (Bool-cases (eqb j k)) [
  | inl e ↦ rw e refl
  | inr e ↦ rw e (get-as_tools k t)
]

pub put-as_tools :
    (k : ℕ) (seg : UpstreamBlockState) (t : Table UpstreamBlockState)
    → put k (as_tool seg) (as_tools t) ≡ as_tools (put k seg t)
unfolding put
put-as_tools k seg [] = refl
put-as_tools k seg ((j, old) ∷ t) = elim (Bool-cases (eqb j k)) [
  | inl e ↦ rw e refl
  | inr e ↦ rw e (ap (λ z. (j, as_tool old) ∷ z) (put-as_tools k seg t))
]

-- An agreement that looks at nothing but the tools.
pub tools-Agrees :
    (n : ℕ) (t : Table UpstreamBlockState) (w : Wire)
    → w.next ≡ n
    → ((i : ℕ) → w.open_at i ≡ tools_show (as_tools t) i)
    → AreApart n (as_tools t)
    → Agrees (blocks n t) w
tools-Agrees n t w at_n same apart = record {
  next = at_n;
  same = same;
  thinking_placed = λ x. cc;
  text_placed = λ x. cc;
  tools_apart = apart;
  thinking_apart = λ i x. cc;
  text_apart = λ i x. cc;
}

old_closed :
    (o : Option UpstreamBlockState) (st : ToolCallState)
    → Option.map as_tool o ≡ some st
    → ((old : UpstreamBlockState) → o ≡ some old → old.is_open ≡ false)
    → st.started ≡ false
old_closed none st e h = absurd (cc)
old_closed (some old) st e h = ground (arith, h old refl)

module _ (n : ℕ) (t : Table UpstreamBlockState) (w : Wire) (a : Agrees (blocks n t) w) where
  -- A segment for an upstream index that has none open.
  pub opened_segment-Agrees :
      (k : ℕ) (seg : UpstreamBlockState)
      → seg.down_index ≡ n
      → seg.is_open ≡ true
      → ((old : UpstreamBlockState) → get k t ≡ some old → old.is_open ≡ false)
      → Agrees (blocks (n + 1) (put k seg t)) (opened n w)
  opened_segment-Agrees k seg at_n on closed_before =
      subst (λ z. Agrees (record (blocks n t) { next_index = n + 1; tool_states = z }) (opened n w))
        (put-as_tools k seg t)
        (opened_tool-Agrees (blocks n t) w a k (as_tool seg) (ap pos at_n) on
          λ old g. old_closed (get k t) old (sym (get-as_tools k t) ∙ g) closed_before)

  pub closed_segment-Agrees :
      (k : ℕ) (seg : UpstreamBlockState)
      → get k t ≡ some seg
      → seg.is_open ≡ true
      → Agrees (blocks n (put k (record seg { is_open = false }) t)) (closed seg.down_index w)
  closed_segment-Agrees k seg g on =
      let st = as_tool (record seg { is_open = false }) in
      let g' : get k (as_tools t) ≡ some (as_tool seg) =
        get-as_tools k t ∙ ap (Option.map as_tool) g in
      tools-Agrees n (put k (record seg { is_open = false }) t) (closed seg.down_index w) a.next
        (λ i.
          subst (λ z. (closed seg.down_index w).open_at i ≡ tools_show z i)
            (put-as_tools k (record seg { is_open = false }) t)
            (rw
              (tools_show-put_closed k st (as_tool seg) seg.down_index on refl refl n i (as_tools t)
                g' a.tools_apart)
              (ground (arith, a.same i))))
        (subst (AreApart n) (put-as_tools k (record seg { is_open = false }) t) (
          AreApart-put_closed k st (as_tool seg) seg.down_index on refl refl n (as_tools t) g'
            a.tools_apart))

  pub open_segment :
      (k : ℕ) (seg : UpstreamBlockState)
      → get k t ≡ some seg
      → seg.is_open ≡ true
      → w.open_at seg.down_index ≡ true
  open_segment k seg g on =
      a.same seg.down_index
      ∙ tool_open k seg.down_index (as_tool seg) (as_tools t)
          (get-as_tools k t ∙ ap (Option.map as_tool) g) on refl

nothing_shown-AreApart :
    (n : ℕ) (t : Table UpstreamBlockState)
    → ((j : ℕ) → tools_show (as_tools t) j ≡ false)
    → AreApart n (as_tools t)
nothing_shown-AreApart n [] h = tt
nothing_shown-AreApart n ((k, seg) ∷ t) h = (
  (λ on. absurd (ground (arith, h seg.down_index))),
  (λ i x. ground (arith, h i)),
  nothing_shown-AreApart n t (λ j. ground (arith, h j)),
)

-- Before a new upstream index starts, every open segment is closed, and a stop is sent for it.
module _ (i : ℕ) where
  close_each-events :
      (t : Table UpstreamBlockState)
      → get i t ≡ none
      → map as_event (close_each i t).2 ≡ stop_tools (as_tools t)
  unfolding close_each get stop_tools
  close_each-events [] g = refl
  close_each-events ((k, seg) ∷ t) g = ground (arith, close_each-events t)

  close_each-shows :
      (t : Table UpstreamBlockState) (j : ℕ)
      → get i t ≡ none
      → tools_show (as_tools (close_each i t).0) j ≡ false
  unfolding close_each get
  close_each-shows [] j g = refl
  close_each-shows ((k, seg) ∷ t) j g = ground (arith, close_each-shows t j)

  pub close_each-get :
      (t : Table UpstreamBlockState) (j : ℕ)
      → is_some (get j (close_each i t).0) ≡ is_some (get j t)
  unfolding close_each get
  close_each-get [] j = refl
  close_each-get ((k, seg) ∷ t) j = ground (arith, close_each-get t j)

  -- The client accepts the stops, and agrees.
  pub close_each-Agrees :
      (n : ℕ) (t : Table UpstreamBlockState) (w : Wire)
      → Agrees (blocks n t) w
      → get i t ≡ none
      → (v : Wire) × (check (map as_event (close_each i t).2) w ≡ some v)
        × Agrees (blocks n (close_each i t).0) v
  close_each-Agrees n t w a g =
      let (v, run, empty) = stop_tools-closes n (as_tools t) w a.tools_apart a.same in
      (
        v,
        ap (λ es. check es w) (close_each-events t g) ∙ run,
        tools-Agrees n (close_each i t).0 v (stop_tools-next (as_tools t) w v run ∙ a.next)
            (λ j. empty j ∙ sym (close_each-shows t j g))
            (nothing_shown-AreApart n (close_each i t).0 (λ j. close_each-shows t j g)),
      )
