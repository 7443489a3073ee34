-- ===== src/BlockPolicy/Orderly.antt =====
-- The provider's side of the stream that core/anthropic/native_sse_block_policy.py sends on, and the
-- stream as a whole.
use claude_unbound.Prelude.{
  ℕ, String, Bool, true, false, ◌≡◌, Option, none, some, List, [], ◌∷◌, ◌++◌, is_some,
}
use claude_unbound.BlockPolicy.State.{
  Upstream, content_block_start, content_block_delta, content_block_stop, other, Sent, Answer,
  nothing, passed, sent, PolicyState, holds, thinking, delta_type_to_block_kind,
}
use claude_unbound.BlockPolicy.{transform_native_sse_block_event}

-- The protocol of the provider, `seen` being the indices of the blocks so far: a block starts once and
-- has a type, reasoning and stops come for blocks that have started, deltas are of the known kinds.
abbrev pub IsOrderly : List ℕ → List Upstream → Type 0
IsOrderly seen [] = Unit {0}
IsOrderly seen (other ∷ es) = IsOrderly seen es
IsOrderly seen (content_block_start (some i) (some b) ∷ es) =
    (holds i seen ≡ false) × (is_some b.type ≡ true) × IsOrderly (i ∷ seen) es
IsOrderly seen (content_block_delta (some i) (some d) ∷ es) =
    (is_some (delta_type_to_block_kind d.type) ≡ true)
    × (delta_type_to_block_kind d.type ≡ some thinking → holds i seen ≡ true)
    × IsOrderly (i ∷ seen) es
IsOrderly seen (content_block_stop (some i) ∷ es) = (holds i seen ≡ true) × IsOrderly seen es
IsOrderly seen (_ ∷ es) = ⊥

-- The new events, and `none` where a block event would go on with the provider's index.
abbrev pub renumbered : Upstream → Answer → Option (List Sent)
renumbered e nothing = some []
renumbered e (sent out) = some out
renumbered other passed = some []
renumbered e passed = none

abbrev pub followed :
    List Sent → Option (PolicyState × List Sent) → Option (PolicyState × List Sent)
followed out none = none
followed out (some (s, later)) = some (s, out ++ later)

abbrev pub followed? :
    Option (List Sent) → Option (PolicyState × List Sent) → Option (PolicyState × List Sent)
followed? none r = none
followed? (some out) r = followed out r

unfoldable pub run :
    (ℕ → String) → Bool → List Upstream → PolicyState → Option (PolicyState × List Sent)
run decimal thinking_enabled [] s = some (s, [])
run decimal thinking_enabled (e ∷ es) s =
    let (s', a) = transform_native_sse_block_event decimal thinking_enabled e s in
    followed? (renumbered e a) (run decimal thinking_enabled es s')
