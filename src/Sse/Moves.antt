-- ===== src/Sse/Moves.antt =====
-- The invariant of Sse/Blocks across the starts and stops of core/anthropic/sse.py.
use claude_unbound.Prelude.{
  ℕ, ◌+◌, ◌<◌, true, false, ◌≡◌, refl, ap, ◌∙◌, Option, none, some, arith, subst, Option-cases, inl,
  inr,
}
use claude_unbound.Prelude.Table.{pos, get, put}
use claude_unbound.Sse.{ToolCallState, ContentBlockManager}
use claude_unbound.Sse.Wire.{Wire, opened, closed}
use claude_unbound.Sse.Blocks.{
  Agrees, AreApart-mono, tools_show, tools_show-below, thinking_shows, text_shows, AreApart-put_new,
  tools_show-put_new, AreApart-put_same, tools_show-put_same, AreApart-put_unstarted,
}

-- A tool keeps its block, or is new and has none.
abbrev pub KeepsBlock : Option ToolCallState → ToolCallState → Type 0
KeepsBlock none st = st.started ≡ false
KeepsBlock (some old) st = (st.started ≡ old.started) × (st.block_index ≡ old.block_index)

module _ (b : ContentBlockManager) (w : Wire) (a : Agrees b w) where
  pub closed_text-Agrees :
      (i : ℕ)
      → b.text_started ≡ true
      → b.text_index ≡ pos i
      → Agrees (record b { text_started = false }) (closed i w)
  closed_text-Agrees i on e = record {
    next = a.next;
    same = λ j. ground (arith, a.same j, a.thinking_apart j, a.text_apart j);
    thinking_placed = a.thinking_placed;
    text_placed = λ x. absurd (ground arith);
    tools_apart = a.tools_apart;
    thinking_apart = λ j x. (refl, (a.thinking_apart j x).1);
    text_apart = λ j x. absurd (ground arith);
  }

  pub closed_thinking-Agrees :
      (i : ℕ)
      → b.thinking_started ≡ true
      → b.thinking_index ≡ pos i
      → Agrees (record b { thinking_started = false }) (closed i w)
  closed_thinking-Agrees i on e = record {
    next = a.next;
    same = λ j. ground (arith, a.same j, a.thinking_apart j, a.text_apart j);
    thinking_placed = λ x. absurd (ground arith);
    text_placed = a.text_placed;
    tools_apart = a.tools_apart;
    thinking_apart = λ j x. absurd (ground arith);
    text_apart = a.text_apart;
  }

  below_thinking : (j : ℕ) → thinking_shows b j ≡ true → j < b.next_index
  below_thinking j x = ground (arith, a.thinking_placed)

  below_text : (j : ℕ) → text_shows b j ≡ true → j < b.next_index
  below_text j x = ground (arith, a.text_placed)

  below_tools : (j : ℕ) → tools_show b.tool_states j ≡ true → j < b.next_index
  below_tools j x = tools_show-below b.next_index j b.tool_states a.tools_apart x

  pub opened_text-Agrees :
      b.text_started ≡ false
      → Agrees
          (record b {
            next_index = b.next_index + 1;
            text_index = pos b.next_index;
            text_started = true;
          })
          (opened b.next_index w)
  opened_text-Agrees off = record {
    next = ap (λ n. n + 1) a.next;
    same = λ j. ground (arith, a.same j, below_thinking j, below_text j, below_tools j);
    thinking_placed = λ x. let (i, e, lt) = a.thinking_placed x in (i, e, omega arith);
    text_placed = λ x. (b.next_index, refl, omega arith);
    tools_apart =
        AreApart-mono b.next_index (b.next_index + 1) b.tool_states (omega arith) a.tools_apart;
    thinking_apart = λ j x. (ground (arith, below_thinking j), (a.thinking_apart j x).1);
    text_apart = λ j x. ground (arith, below_tools j);
  }

  pub opened_thinking-Agrees :
      b.thinking_started ≡ false
      → Agrees
          (record b {
            next_index = b.next_index + 1;
            thinking_index = pos b.next_index;
            thinking_started = true;
          })
          (opened b.next_index w)
  opened_thinking-Agrees off = record {
    next = ap (λ n. n + 1) a.next;
    same = λ j. ground (arith, a.same j, below_thinking j, below_text j, below_tools j);
    thinking_placed = λ x. (b.next_index, refl, omega arith);
    text_placed = λ x. let (i, e, lt) = a.text_placed x in (i, e, omega arith);
    tools_apart =
        AreApart-mono b.next_index (b.next_index + 1) b.tool_states (omega arith) a.tools_apart;
    thinking_apart = λ j x. (ground (arith, below_text j), ground (arith, below_tools j));
    text_apart = a.text_apart;
  }

  -- A block that is opened and closed at once.
  pub passed-Agrees :
      Agrees
        (record b { next_index = b.next_index + 1 })
        (closed b.next_index (opened b.next_index w))
  passed-Agrees = record {
    next = ap (λ n. n + 1) a.next;
    same = λ j. ground (arith, a.same j, below_thinking j, below_text j, below_tools j);
    thinking_placed = λ x. let (i, e, lt) = a.thinking_placed x in (i, e, omega arith);
    text_placed = λ x. let (i, e, lt) = a.text_placed x in (i, e, omega arith);
    tools_apart =
        AreApart-mono b.next_index (b.next_index + 1) b.tool_states (omega arith) a.tools_apart;
    thinking_apart = a.thinking_apart;
    text_apart = a.text_apart;
  }

  pub opened_tool-Agrees :
      (k : ℕ) (st : ToolCallState)
      → st.block_index ≡ pos b.next_index
      → st.started ≡ true
      → ((old : ToolCallState) → get k b.tool_states ≡ some old → old.started ≡ false)
      → Agrees
          (record b { next_index = b.next_index + 1; tool_states = put k st b.tool_states })
          (opened b.next_index w)
  opened_tool-Agrees k st at_n on h = record {
    next = ap (λ n. n + 1) a.next;
    same = λ j. rw (tools_show-put_new k st j b.tool_states h) (ground (arith, a.same j));
    thinking_placed = λ x. let (i, e, lt) = a.thinking_placed x in (i, e, omega arith);
    text_placed = λ x. let (i, e, lt) = a.text_placed x in (i, e, omega arith);
    tools_apart = AreApart-put_new k st b.next_index b.tool_states a.tools_apart at_n h;
    thinking_apart = λ j x. (
      (a.thinking_apart j x).0,
      rw (tools_show-put_new k st j b.tool_states h)
          (ground (arith, below_thinking j x, a.thinking_apart j)),
    );
    text_apart = λ j x.
        rw (tools_show-put_new k st j b.tool_states h)
          (ground (arith, below_text j x, a.text_apart j));
  }

  pub kept_tool-Agrees :
      (k : ℕ) (st old : ToolCallState)
      → get k b.tool_states ≡ some old
      → st.started ≡ old.started
      → st.block_index ≡ old.block_index
      → Agrees (record b { tool_states = put k st b.tool_states }) w
  kept_tool-Agrees k st old g s i =
      let shows = λ (j : ℕ). tools_show-put_same k st old s i j b.tool_states g in
      record {
        next = a.next;
        same = λ j. rw (tools_show-put_same k st old s i j b.tool_states g) (a.same j);
        thinking_placed = a.thinking_placed;
        text_placed = a.text_placed;
        tools_apart = AreApart-put_same k st old s i b.next_index b.tool_states g a.tools_apart;
        thinking_apart = λ j x. ((a.thinking_apart j x).0, shows j ∙ (a.thinking_apart j x).1);
        text_apart = λ j x. shows j ∙ a.text_apart j x;
      }

  -- A tool without a block is written.
  pub unstarted_tool-Agrees :
      (k : ℕ) (st : ToolCallState)
      → st.started ≡ false
      → ((old : ToolCallState) → get k b.tool_states ≡ some old → old.started ≡ false)
      → Agrees (record b { tool_states = put k st b.tool_states }) w
  unstarted_tool-Agrees k st off h =
      let shows : (j : ℕ) → tools_show (put k st b.tool_states) j ≡ tools_show b.tool_states j =
        λ j. tools_show-put_new k st j b.tool_states h ∙ rw off refl in
      record {
        next = a.next;
        same = λ j. rw (shows j) (a.same j);
        thinking_placed = a.thinking_placed;
        text_placed = a.text_placed;
        tools_apart = AreApart-put_unstarted k st b.next_index b.tool_states off a.tools_apart h;
        thinking_apart = λ j x. ((a.thinking_apart j x).0, shows j ∙ (a.thinking_apart j x).1);
        text_apart = λ j x. shows j ∙ a.text_apart j x;
      }

  pub noted_tool-Agrees :
      (k : ℕ) (st : ToolCallState)
      → KeepsBlock (get k b.tool_states) st
      → Agrees (record b { tool_states = put k st b.tool_states }) w
  noted_tool-Agrees k st keeps = elim (Option-cases (get k b.tool_states)) [
    | inl e ↦
        unstarted_tool-Agrees k st (subst (λ o. KeepsBlock o st) e keeps)
          (λ old g. absurd (ground arith))
    | inr (old, e) ↦
        let kept : KeepsBlock (some old) st = subst (λ o. KeepsBlock o st) e keeps in
        kept_tool-Agrees k st old e kept.0 kept.1
  ]
