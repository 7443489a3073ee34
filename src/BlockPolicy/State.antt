-- ===== src/BlockPolicy/State.antt =====
-- core/anthropic/native_sse_block_policy.py: the events, the state, and the tests on types.
use claude_unbound.Prelude.{
  ℕ, String, Bool, false, not, ◌&&◌, ◌||◌, Option, none, some, List, [], ◌∷◌, eqb, keep, is_some,
  if◌then◌else◌,
}
use claude_unbound.Prelude.Texts.{same_text, Text, codes, starts_with, find}
use claude_unbound.Prelude.Table.{Table}
use claude_unbound.Sse.{Extra}

pub record ContentBlock : Type 0 where
  pub type : Option Text
  pub id : Option String
  pub name : Option String
  pub input : Option Extra
  pub rest : Extra

pub record Delta : Type 0 where
  pub type : Option Text
  pub rest : Extra

-- What comes from the provider. `other` is every event that is no block event, or no JSON.
pub data Upstream : Type 0 where
  content_block_start : Option ℕ → Option ContentBlock → Upstream
  content_block_delta : Option ℕ → Option Delta → Upstream
  content_block_stop : Option ℕ → Upstream
  other : Upstream

-- What is written to the client.
pub data Sent : Type 0 where
  start : ℕ → ContentBlock → Sent
  delta : ℕ → Delta → Sent
  stop : ℕ → Sent

-- `None`, the event itself, or new events.
pub data Answer : Type 0 where
  nothing passed : Answer
  sent : List Sent → Answer

pub record UpstreamBlockState : Type 0 where
  pub block_type : Text
  pub down_index : ℕ
  pub is_open : Bool
  pub last_start_block : Option ContentBlock

pub record PolicyState : Type 0 where
  pub next_index : ℕ
  pub by_upstream : Table UpstreamBlockState
  pub dropped_indexes : List ℕ
  pub pending_suppressed_stops : List ℕ
  pub message_stopped : Bool

abbrev pub new_state : PolicyState
new_state = record {
  next_index = 0;
  by_upstream = [];
  dropped_indexes = [];
  pending_suppressed_stops = [];
  message_stopped = false;
}

-- A set of numbers.
unfoldable pub holds : ℕ → List ℕ → Bool
holds i [] = false
holds i (j ∷ l) = eqb j i || holds i l

abbrev pub add : ℕ → List ℕ → List ℕ
add i l = if holds i l then l else i ∷ l

abbrev pub discard : ℕ → List ℕ → List ℕ
discard i l = keep (λ j. not (eqb j i)) l

-- `part in whole`
abbrev pub within : Text → Text → Bool
within part whole = is_some (find part whole)

pub data Kind : Type 0 where
  text thinking tool_use : Kind

abbrev pub kind_text : Kind → Text
kind_text text = codes "text"
kind_text thinking = codes "thinking"
kind_text tool_use = codes "tool_use"

unfoldable pub delta_type_to_block_kind : Option Text → Option Kind
unfolding same_text
delta_type_to_block_kind none = none
delta_type_to_block_kind (some t) =
    if same_text t (codes "thinking_delta") || same_text t (codes "signature_delta")
    then some thinking
    else if same_text t (codes "text_delta")
    then some text
    else if same_text t (codes "input_json_delta")
    then some tool_use
    else none

unfoldable pub should_drop_block_type : Bool → Option Text → Bool
unfolding starts_with find
should_drop_block_type thinking_enabled none = false
should_drop_block_type thinking_enabled (some t) =
    if starts_with (codes "redacted_thinking") t
    then not thinking_enabled
    else not thinking_enabled && within (codes "thinking") t
