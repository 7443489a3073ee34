-- ===== src/Sse/Stream.antt =====
-- The streams that the providers write with the builder of core/anthropic/sse.py, and their client.
use claude_unbound.Prelude.{
  ℕ, String, true, false, ◌||◌, ◌≡◌, refl, sym, ◌∙◌, subst, Option, some, List, [], ◌++◌, arith,
}
use claude_unbound.Prelude.Table.{get, put}
use claude_unbound.Sse.{
  Extra, ToolCallState, SseBuilder, Event, close_content_blocks, close_all_blocks, stop_tools,
  stop_thinking_if, stop_text_if, start_tool_block, emit_tool_delta, emit_error, new_builder,
  stop_thinking_block, stop_text_block, start_thinking_block, start_text_block, emit_thinking_delta,
  emit_text_delta, iter_heuristic_tool_use_sse, ContentBlockManager, with_blocks,
  register_tool_name, set_stream_tool_id, set_tool_extra_content, ensure_tool_state,
}
use claude_unbound.Sse.Wire.{Wire, nothing_sent, check, check-append}
use claude_unbound.Sse.Blocks.{Agrees, tools_show, thinking_shows, text_shows}
use claude_unbound.Sse.Moves.{kept_tool-Agrees}
use claude_unbound.Sse.Notes.{
  ensure_tool_state-Agrees, set_stream_tool_id-Agrees, set_tool_extra_content-Agrees,
  register_tool_name-Agrees,
}
use claude_unbound.Sse.Protocol.{
  think, say, think-Moves, say-Moves, emit_error-Moves, start_tool_block-Moves,
  close_content_blocks-Moves, stop_tools-closes, emit_tool_delta-Agrees, IsUnstarted, Moves, Any,
  Thinks, Speaks, Thoughtless, Silent, heuristic-Moves, start_thinking_block-Moves,
  start_text_block-Moves, stop_thinking_block-Moves, stop_text_block-Moves,
  emit_thinking_delta-Moves, emit_text_delta-Moves,
}

-- One call of the builder by a provider's stream. A block of reasoning or text is started where it is
-- not, and its deltas and its stop come where it is; a tool is started once, and its deltas follow.
pub data Act (s : SseBuilder) (r : SseBuilder × List Event) : Type 0 where
  thinks : (content : String) → r ≡ think content s → Act s r
  says : (content : String) → r ≡ say content s → Act s r
  closes : r ≡ close_content_blocks s → Act s r
  fails : (msg : String) → r ≡ emit_error msg s → Act s r
  starts_tool :
      (k : ℕ) (tool_id name : String) (extra : Option Extra)
      → IsUnstarted k s
      → r ≡ start_tool_block k tool_id name extra s
      → Act s r
  tool_delta :
      (k : ℕ) (json : String) (st : ToolCallState)
      → get k s.blocks.tool_states ≡ some st
      → st.started ≡ true
      → emit_tool_delta k json s ≡ some r
      → Act s r
  whole_tool_use :
      (id name input : String) → r ≡ iter_heuristic_tool_use_sse id name input s → Act s r
  starts_thinking : Thoughtless s → r ≡ start_thinking_block s → Act s r
  thinking_goes_on : (content : String) → Thinks s → r ≡ emit_thinking_delta content s → Act s r
  stops_thinking : Thinks s → r ≡ stop_thinking_block s → Act s r
  starts_text : Silent s → r ≡ start_text_block s → Act s r
  text_goes_on : (content : String) → Speaks s → r ≡ emit_text_delta content s → Act s r
  stops_text : Speaks s → r ≡ stop_text_block s → Act s r
  -- calls that send nothing
  registers_name :
      (k : ℕ) (name : String)
      → r ≡ (with_blocks s (register_tool_name k name s.blocks), [])
      → Act s r
  sets_id :
      (k : ℕ) (id : Option String)
      → r ≡ (with_blocks s (set_stream_tool_id k id s.blocks), [])
      → Act s r
  sets_extra :
      (k : ℕ) (extra : Option Extra)
      → r ≡ (with_blocks s (set_tool_extra_content k extra s.blocks), [])
      → Act s r
  ensures : (k : ℕ) → r ≡ (with_blocks s (ensure_tool_state k s.blocks).0, []) → Act s r
  -- a write to a tool's buffers, or to another field that is not of its block
  buffers :
      (k : ℕ) (st old : ToolCallState)
      → get k s.blocks.tool_states ≡ some old
      → st.started ≡ old.started
      → st.block_index ≡ old.block_index
      → r ≡ (with_blocks s (record (s.blocks) { tool_states = put k st s.blocks.tool_states }), [])
      → Act s r

abbrev Follows : Wire → SseBuilder × List Event → Type 0
Follows w r = (v : Wire) × (check r.1 w ≡ some v) × Agrees r.0.blocks v

followed :
    {P : SseBuilder → Type 0} (Q : SseBuilder → Type 0) (f : SseBuilder → SseBuilder × List Event)
    (s : SseBuilder) (r : SseBuilder × List Event) (w : Wire)
    → Moves P f Q
    → Agrees s.blocks w
    → P s
    → r ≡ f s
    → Follows w r
followed Q f s r w moves a p e =
    let (v, run, agrees, q) = moves s w a p in subst (Follows w) (sym e) (v, run, agrees)

noted :
    (s : SseBuilder) (r : SseBuilder × List Event) (w : Wire) (b : ContentBlockManager)
    → Agrees b w
    → r ≡ (with_blocks s b, [])
    → Follows w r
noted s r w b a e = subst (Follows w) (sym e) (w, unfold check in refl, a)

Act-Agrees :
    (s : SseBuilder) (r : SseBuilder × List Event) (w : Wire)
    → Act s r
    → Agrees s.blocks w
    → (v : Wire) × (check r.1 w ≡ some v) × Agrees r.0.blocks v
Act-Agrees s r w (thinks content e) a =
    followed Any (think content) s r w (think-Moves content) a tt e
Act-Agrees s r w (says content e) a = followed Any (say content) s r w (say-Moves content) a tt e
Act-Agrees s r w (closes e) a =
    followed Any close_content_blocks s r w close_content_blocks-Moves a tt e
Act-Agrees s r w (fails msg e) a = followed Any (emit_error msg) s r w (emit_error-Moves msg) a tt e
Act-Agrees s r w (starts_tool k tool_id name extra new e) a =
    followed Any (start_tool_block k tool_id name extra) s r w
      (start_tool_block-Moves k tool_id name extra) a new e
Act-Agrees s r w (tool_delta k json st g on e) a = emit_tool_delta-Agrees k json s st r w a g on e
Act-Agrees s r w (whole_tool_use id name input e) a =
    followed Any (iter_heuristic_tool_use_sse id name input) s r w (heuristic-Moves id name input) a
      tt e
Act-Agrees s r w (starts_thinking off e) a =
    followed Thinks start_thinking_block s r w start_thinking_block-Moves a off e
Act-Agrees s r w (thinking_goes_on content on e) a =
    followed Any (emit_thinking_delta content) s r w (emit_thinking_delta-Moves content) a on e
Act-Agrees s r w (stops_thinking on e) a =
    followed Any stop_thinking_block s r w stop_thinking_block-Moves a on e
Act-Agrees s r w (starts_text off e) a =
    followed Speaks start_text_block s r w start_text_block-Moves a off e
Act-Agrees s r w (text_goes_on content on e) a =
    followed Any (emit_text_delta content) s r w (emit_text_delta-Moves content) a on e
Act-Agrees s r w (stops_text on e) a =
    followed Any stop_text_block s r w stop_text_block-Moves a on e
Act-Agrees s r w (registers_name k name e) a =
    noted s r w _ (register_tool_name-Agrees k s.blocks w a name) e
Act-Agrees s r w (sets_id k id e) a = noted s r w _ (set_stream_tool_id-Agrees k s.blocks w a id) e
Act-Agrees s r w (sets_extra k extra e) a =
    noted s r w _ (set_tool_extra_content-Agrees k s.blocks w a extra) e
Act-Agrees s r w (ensures k e) a = noted s r w _ (ensure_tool_state-Agrees k s.blocks w a) e
Act-Agrees s r w (buffers k st old g same_started same_index e) a =
    noted s r w _ (kept_tool-Agrees s.blocks w a k st old g same_started same_index) e

-- The events of a stream so far, from a builder to a builder.
pub data Emits (s : SseBuilder) : List Event → SseBuilder → Type 0 where
  start : Emits s [] s
  then :
      {es fs : List Event} {u v : SseBuilder} → Emits s es u → Act u (v, fs) → Emits s (es ++ fs) v

Emits-Agrees :
    (s u : SseBuilder) (w : Wire) {es : List Event}
    → Agrees s.blocks w
    → Emits s es u
    → (v : Wire) × (check es w ≡ some v) × Agrees u.blocks v
unfolding check
Emits-Agrees s u w a start = (w, refl, a)
Emits-Agrees s u w a (then {es = es} {fs = fs} {u = m} emits act) =
    let (v, run, agrees) = Emits-Agrees s m w a emits in
    let (z, run', agrees') = Act-Agrees m (u, fs) v act agrees in
    (z, check-append es fs w v run ∙ run', agrees')

new_builder-Agrees :
    (message_id model : String) (input_tokens : ℕ)
    → Agrees (new_builder message_id model input_tokens).blocks nothing_sent
unfolding new_builder
new_builder-Agrees message_id model input_tokens = record {
  next = refl;
  same = λ i. refl;
  thinking_placed = λ x. cc;
  text_placed = λ x. cc;
  tools_apart = tt;
  thinking_apart = λ i x. cc;
  text_apart = λ i x. cc;
}

-- `close_content_blocks` leaves neither reasoning nor text open.
closed_content :
    (s : SseBuilder)
    → let u = (close_content_blocks s).0.blocks in
      (u.thinking_started ≡ false) × (u.text_started ≡ false)
unfolding close_content_blocks stop_thinking_if stop_text_if stop_thinking_block stop_text_block
closed_content s = ground arith

-- Whatever sequence of the calls of `Act`, each under its condition, a new builder gets: the client
-- accepts every event, and has open exactly the blocks that the builder holds for started; and the
-- events of one `close_all_blocks` after them are accepted too, and leave no block open.
pub stream-accepted :
    (message_id model : String) (input_tokens : ℕ) (es : List Event) (s : SseBuilder)
    → Emits (new_builder message_id model input_tokens) es s
    → (v : Wire) × (check es nothing_sent ≡ some v)
      × ((i : ℕ)
          → v.open_at i ≡ (
              thinking_shows s.blocks i
              || text_shows s.blocks i
              || tools_show s.blocks.tool_states i))
      × (z : Wire) × (check (es ++ (close_all_blocks s).1) nothing_sent ≡ some z)
      × ((i : ℕ) → z.open_at i ≡ false)
unfolding close_all_blocks
stream-accepted message_id model input_tokens es s emits =
    let b = new_builder message_id model input_tokens in
    let (v, run, a) =
      Emits-Agrees b s nothing_sent (new_builder-Agrees message_id model input_tokens) emits in
    let (u, cs) = close_content_blocks s in
    let (x, run', a', t) = close_content_blocks-Moves s v a tt in
    let (thinking_off, text_off) = closed_content s in
    let (z, run'', empty) =
      stop_tools-closes u.blocks.next_index u.blocks.tool_states x a'.tools_apart
        (λ i. ground (arith, a'.same i)) in
    (
      v,
      run,
      a.same,
      z,
      check-append es (cs ++ stop_tools u.blocks.tool_states) nothing_sent v run
          ∙ check-append cs (stop_tools u.blocks.tool_states) v x run'
          ∙ run'',
      empty,
    )
