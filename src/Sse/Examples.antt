-- ===== src/Sse/Examples.antt =====
-- A stream of core/anthropic/sse.py: reasoning, text, a tool whose name is registered before its block
-- starts, and the end.
use claude_unbound.Prelude.{ℕ, false, ◌||◌, ◌≡◌, refl, none, some, List, [], ◌∷◌, ◌++◌}
use claude_unbound.Prelude.Table.{pos, get, put}
use claude_unbound.Sse.{
  SseBuilder, Event, content_block_start, content_block_delta, content_block_stop, thinking, text,
  tool_use, thinking_delta, text_delta, new_builder, start_tool_block, ToolCallState,
  close_all_blocks, ensure_thinking_block, ensure_text_block, emit_thinking_delta, emit_text_delta,
  stop_thinking_if, stop_text_if, start_text_if, start_thinking_if, start_text_block,
  start_thinking_block, stop_text_block, stop_thinking_block, allocate_index, close_content_blocks,
  stop_tools, launch_tool, with_blocks, register_tool_name,
}
use claude_unbound.Sse.Wire.{Wire, nothing_sent, check}
use claude_unbound.Sse.Blocks.{tools_show, thinking_shows, text_shows}
use claude_unbound.Sse.Protocol.{think, say}
use claude_unbound.Sse.Stream.{
  Emits, start, then, thinks, says, starts_tool, registers_name, stream-accepted,
}

abbrev b0 : SseBuilder
b0 = new_builder "msg" "model" 7

abbrev b1 : SseBuilder
b1 = (think "hm" b0).0

abbrev b2 : SseBuilder
b2 = (say "hi" b1).0

abbrev named : SseBuilder
named = with_blocks b2 (register_tool_name 0 "Read" b2.blocks)

abbrev b3 : SseBuilder
b3 = (start_tool_block 0 "t1" "Read" none named).0

abbrev said : List Event
said =
    ((([] ++ (think "hm" b0).1) ++ (say "hi" b1).1) ++ [])
    ++ (start_tool_block 0 "t1" "Read" none named).1

no_tool : (old : ToolCallState) → get 0 named.blocks.tool_states ≡ some old → old.started ≡ false
unfolding new_builder ensure_thinking_block ensure_text_block emit_thinking_delta emit_text_delta
    stop_thinking_if stop_text_if start_text_if start_thinking_if start_text_block
    start_thinking_block stop_text_block stop_thinking_block allocate_index get put
    register_tool_name
no_tool old e = cc

emitted : Emits b0 said b3
emitted =
    then
      (then (then (then start (thinks "hm" refl)) (says "hi" refl)) (registers_name 0 "Read" refl))
      (starts_tool 0 "t1" "Read" none no_tool refl)

said_lem :
    said ++ (close_all_blocks b3).1
    ≡ content_block_start (pos 0) thinking
      ∷ content_block_delta (pos 0) (thinking_delta "hm")
      ∷ content_block_stop (pos 0)
      ∷ content_block_start (pos 1) text
      ∷ content_block_delta (pos 1) (text_delta "hi")
      ∷ content_block_start (pos 2) (tool_use "t1" "Read" none)
      ∷ content_block_stop (pos 1)
      ∷ content_block_stop (pos 2)
      ∷ []
unfolding new_builder ensure_thinking_block ensure_text_block emit_thinking_delta emit_text_delta
    stop_thinking_if stop_text_if start_text_if start_thinking_if start_text_block
    start_thinking_block stop_text_block stop_thinking_block allocate_index get put start_tool_block
    launch_tool register_tool_name close_all_blocks close_content_blocks stop_tools
said_lem = refl

stream-accepted_example :
    (v : Wire) × (check said nothing_sent ≡ some v)
    × ((i : ℕ)
        → v.open_at i ≡ (
            thinking_shows b3.blocks i
            || text_shows b3.blocks i
            || tools_show b3.blocks.tool_states i))
    × (z : Wire) × (check (said ++ (close_all_blocks b3).1) nothing_sent ≡ some z)
    × ((i : ℕ) → z.open_at i ≡ false)
stream-accepted_example = stream-accepted "msg" "model" 7 said b3 emitted
