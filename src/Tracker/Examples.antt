-- ===== src/Tracker/Examples.antt =====
-- A stream that breaks in the middle of a text and a tool (core/anthropic/emitted_sse_tracker.py).
use claude_unbound.Prelude.{ℕ, false, ◌≡◌, refl, none, some, List, [], ◌∷◌, ◌++◌}
use claude_unbound.Prelude.Table.{pos}
use claude_unbound.Sse.{Event, text, tool_use, text_delta, content_block_start, content_block_delta}
use claude_unbound.Sse.Wire.{Wire, nothing_sent, opened, check, accept}
use claude_unbound.Tracker.{new_tracker, next_content_index, iter_close_unclosed_blocks}
use claude_unbound.Tracker.Closing.{track, tracked-closes}

abbrev broken : List Event
broken =
    content_block_start (pos 0) text
    ∷ content_block_delta (pos 0) (text_delta "hal")
    ∷ content_block_start (pos 1) (tool_use "t" "Read" none)
    ∷ []

accepted : check broken nothing_sent ≡ some (opened 1 (opened 0 nothing_sent))
unfolding check accept
accepted = refl

tracked-closes_example :
    let t = track broken new_tracker in
    let (u, stops) = iter_close_unclosed_blocks t in
    (next_content_index t ≡ 2)
    × (z : Wire) × (check (broken ++ stops) nothing_sent ≡ some z)
    × ((i : ℕ) → z.open_at i ≡ false)
    × (u.open_stack ≡ [])
tracked-closes_example = tracked-closes broken (opened 1 (opened 0 nothing_sent)) accepted
