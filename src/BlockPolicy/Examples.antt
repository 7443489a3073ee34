-- ===== src/BlockPolicy/Examples.antt =====
-- Two interleaved blocks of a provider (core/anthropic/native_sse_block_policy.py): the first is
-- closed when the second starts, and opened again for a late delta.
use mathlib.Core.List.{Sublist}
use claude_unbound.Prelude.{
  ℕ, String, true, false, ◌≡◌, refl, Option, none, some, List, [], ◌∷◌, map,
}
use claude_unbound.Prelude.Texts.{codes}
use claude_unbound.Prelude.Table.{get, put}
use claude_unbound.Sse.Wire.{Wire, nothing_sent, check}
use claude_unbound.Sse.Blocks.{tools_show}
use claude_unbound.BlockPolicy.State.{
  ContentBlock, Delta, Upstream, content_block_start, content_block_delta, content_block_stop,
  other, Sent, start, delta, stop, PolicyState, new_state, holds, delta_type_to_block_kind,
}
use claude_unbound.BlockPolicy.{transform_native_sse_block_event}
use claude_unbound.BlockPolicy.Client.{as_event, as_tools}
use claude_unbound.BlockPolicy.Orderly.{IsOrderly, run}
use claude_unbound.BlockPolicy.Contract.{
  IsTyped, IsTypedUpstream, deltas_of, starts_of, wanted_deltas, wanted_starts,
}
use claude_unbound.BlockPolicy.Whole.{run-carries}
use claude_unbound.BlockPolicy.Hidden.{Hides, thinking-hidden}

abbrev no_digits : ℕ → String
no_digits n = ""

abbrev block_of : String → ContentBlock
block_of type = record { type = some (codes type); id = none; name = none; input = none; rest = [] }

abbrev delta_of : String → Delta
delta_of type = record { type = some (codes type); rest = [] }

abbrev interleaved : List Upstream
interleaved =
    content_block_start (some 0) (some (block_of "text"))
    ∷ content_block_start (some 1) (some (block_of "tool_use"))
    ∷ content_block_delta (some 0) (some (delta_of "text_delta"))
    ∷ content_block_stop (some 0)
    ∷ other
    ∷ content_block_stop (some 1)
    ∷ []

interleaved-IsOrderly : IsOrderly [] interleaved
unfolding holds delta_type_to_block_kind
interleaved-IsOrderly = (refl, refl, (refl, refl, (refl, (λ e. refl), (refl, (refl, tt)))))

interleaved-IsTyped : IsTypedUpstream (λ i. none) interleaved
unfolding delta_type_to_block_kind
interleaved-IsTyped = (refl, (refl, (refl, tt)))

run-carries_example :
    (s : PolicyState) × (out : List Sent) × (run no_digits true interleaved new_state
      ≡ some (s, out))
    × (v : Wire) × (check (map as_event out) nothing_sent ≡ some v)
    × ((i : ℕ) → v.open_at i ≡ tools_show (as_tools s.by_upstream) i)
    × IsTyped (λ i. none) out
    × (deltas_of out ≡ wanted_deltas true [] interleaved)
    × Sublist (wanted_starts true interleaved) (starts_of out)
run-carries_example =
    run-carries no_digits true interleaved interleaved-IsOrderly interleaved-IsTyped

thinking-hidden_example :
    Hides
      (content_block_start (some 0) (some (block_of "thinking")))
      (transform_native_sse_block_event no_digits false
        (content_block_start (some 0) (some (block_of "thinking")))
        new_state).1
thinking-hidden_example =
    thinking-hidden no_digits new_state (content_block_start (some 0) (some (block_of "thinking")))
      tt

abbrev sent_on : Option (PolicyState × List Sent) → List Sent
sent_on none = []
sent_on (some (s, out)) = out

interleaved_sent :
    map as_event (sent_on (run no_digits true interleaved new_state))
    ≡ map as_event (
        start 0 (block_of "text")
        ∷ stop 0
        ∷ start 1 (block_of "tool_use")
        ∷ start 2 (block_of "text")
        ∷ delta 2 (delta_of "text_delta")
        ∷ stop 2
        ∷ stop 1
        ∷ [])
unfolding run transform_native_sse_block_event get put
interleaved_sent = refl
