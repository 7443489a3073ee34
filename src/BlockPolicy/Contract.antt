-- ===== src/BlockPolicy/Contract.antt =====
-- The types of blocks and deltas in a stream (core/anthropic/stream_contracts.py,
-- assert_anthropic_stream_contract), on the provider's side of
-- core/anthropic/native_sse_block_policy.py and on the client's; and what of a stream has to be sent on.
use mathlib.Core.Option
use claude_unbound.Prelude.{
  ℕ, Bool, ◌||◌, ◌≡◌, Option, none, some, List, [], ◌∷◌, ◌++◌, eqb, if◌then◌else◌,
}
use claude_unbound.Prelude.Texts.{Text}
use claude_unbound.BlockPolicy.State.{
  ContentBlock, Delta, Upstream, content_block_start, content_block_delta, Sent, start, delta, stop,
  holds, add, kind_text, delta_type_to_block_kind, should_drop_block_type,
}

-- The types of blocks by their indices.
abbrev pub set_at : ℕ → Option Text → (ℕ → Option Text) → ℕ → Option Text
set_at i v f j = if eqb i j then v else f j

-- The type of the blocks that a delta is for.
abbrev pub block_type_for : Delta → Option Text
block_type_for d = Option.map kind_text (delta_type_to_block_kind d.type)

-- A delta is for a block of its type.
abbrev pub Fits : Option Text → Delta → Type 0
Fits type d = (t : Text) × (type ≡ some t) × (block_type_for d ≡ some t)

-- The events of the client's stream have deltas for the types of their blocks.
abbrev pub IsTyped : (ℕ → Option Text) → List Sent → Type 0
IsTyped types [] = Unit {0}
IsTyped types (start i b ∷ out) = IsTyped (set_at i b.type types) out
IsTyped types (delta i d ∷ out) = Fits (types i) d × IsTyped types out
IsTyped types (stop i ∷ out) = IsTyped types out

abbrev pub types_after : (ℕ → Option Text) → List Sent → ℕ → Option Text
types_after types [] = types
types_after types (start i b ∷ out) = types_after (set_at i b.type types) out
types_after types (delta i d ∷ out) = types_after types out
types_after types (stop i ∷ out) = types_after types out

-- A delta of the provider is for the type of its block; the block may not have started.
abbrev pub FitsSoFar : Option Text → Delta → Type 0
FitsSoFar none d = Unit {0}
FitsSoFar (some t) d = block_type_for d ≡ some t

abbrev pub IsTypedUpstream : (ℕ → Option Text) → List Upstream → Type 0
IsTypedUpstream kinds [] = Unit {0}
IsTypedUpstream kinds (content_block_start (some i) (some b) ∷ es) =
    (kinds i ≡ none) × IsTypedUpstream (set_at i b.type kinds) es
IsTypedUpstream kinds (content_block_delta (some i) (some d) ∷ es) =
    FitsSoFar (kinds i) d × IsTypedUpstream (set_at i (block_type_for d) kinds) es
IsTypedUpstream kinds (_ ∷ es) = IsTypedUpstream kinds es

abbrev pub deltas_of : List Sent → List Delta
deltas_of [] = []
deltas_of (start i b ∷ out) = deltas_of out
deltas_of (delta i d ∷ out) = d ∷ deltas_of out
deltas_of (stop i ∷ out) = deltas_of out

abbrev pub starts_of : List Sent → List ContentBlock
starts_of [] = []
starts_of (start i b ∷ out) = b ∷ starts_of out
starts_of (delta i d ∷ out) = starts_of out
starts_of (stop i ∷ out) = starts_of out

-- What has to be sent on, `hidden` being the indices of the blocks that were left out.
module _ (thinking_enabled : Bool) where
  abbrev pub wanted_delta : List ℕ → ℕ → Delta → List Delta
  wanted_delta hidden i d =
      if holds i hidden || should_drop_block_type thinking_enabled d.type then [] else d ∷ []

  abbrev pub wanted_start : ContentBlock → List ContentBlock
  wanted_start b = if should_drop_block_type thinking_enabled b.type then [] else b ∷ []

  abbrev pub hidden_after : ℕ → ContentBlock → List ℕ → List ℕ
  hidden_after i b hidden =
      if should_drop_block_type thinking_enabled b.type then add i hidden else hidden

  abbrev pub wanted_deltas : List ℕ → List Upstream → List Delta
  wanted_deltas hidden [] = []
  wanted_deltas hidden (content_block_start (some i) (some b) ∷ es) =
      wanted_deltas (hidden_after i b hidden) es
  wanted_deltas hidden (content_block_delta (some i) (some d) ∷ es) =
      wanted_delta hidden i d ++ wanted_deltas hidden es
  wanted_deltas hidden (_ ∷ es) = wanted_deltas hidden es

  abbrev pub wanted_starts : List Upstream → List ContentBlock
  wanted_starts [] = []
  wanted_starts (content_block_start (some i) (some b) ∷ es) = wanted_start b ++ wanted_starts es
  wanted_starts (_ ∷ es) = wanted_starts es
