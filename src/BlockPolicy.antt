-- ===== src/BlockPolicy.antt =====
-- core/anthropic/native_sse_block_policy.py: a native Anthropic stream is sent on with its content
-- blocks numbered anew, one block closed before the next starts, and thinking left out where it is
-- switched off. An event is a value here: the text of a block event has been cut (parse_native_sse_event)
-- and read as a JSON object. `none` stands for an index that is no number, a block or delta that is no
-- object, a type, id or name that is no text, an input that is no object. `decimal` writes a number in
-- a text.
pub mod State
pub mod Client
pub mod Orderly
pub mod Contract
pub mod Typed
pub mod Carried
pub mod Sound
pub mod Steps
pub mod Accepted
pub mod Whole
pub mod Hidden
mod Examples
use claude_unbound.Prelude.{
  ℕ, ◌+◌, String, Bool, true, false, not, ◌&&◌, ◌||◌, Option, none, some, List, [], ◌∷◌, ◌++◌, eqb,
  keep, truthy, is_some, if◌then◌else◌,
}
use claude_unbound.Prelude.Texts.{Text, codes, starts_with, find, same_text}
use Prim.Native.String.{◌++◌ as str_append}
use claude_unbound.Prelude.Table.{Table, get, put}
use claude_unbound.Sse.{Extra}
use claude_unbound.BlockPolicy.State.{
  ContentBlock, Delta, Upstream, content_block_start, content_block_delta, content_block_stop,
  other, Sent, start, delta, stop, Answer, nothing, passed, sent, UpstreamBlockState, PolicyState,
  holds, add, discard, Kind, text, thinking, tool_use, kind_text, delta_type_to_block_kind,
  should_drop_block_type,
}

abbrev pub is_tool_use : Option Text → Bool
unfolding same_text
is_tool_use none = false
is_tool_use (some t) = same_text t (codes "tool_use")

abbrev pub id_or : String → Option String → String
id_or fallback none = fallback
id_or fallback (some i) = if truthy i then i else fallback

abbrev pub object_or_empty : Option Extra → Extra
object_or_empty none = []
object_or_empty (some e) = e

abbrev pub text_or_empty : Option String → String
text_or_empty none = ""
text_or_empty (some s) = s

module _ (decimal : ℕ → String) where
  abbrev pub tool_start : ℕ → Option String → Option String → Option Extra → ContentBlock
  tool_start upstream id name input = record {
    type = some (codes "tool_use");
    id = some (id_or (str_append "toolu_or_" (decimal upstream)) id);
    name = some (text_or_empty name);
    input = some (object_or_empty input);
    rest = [];
  }

  abbrev pub stored_start : ℕ → Option ContentBlock → ContentBlock
  stored_start upstream none = tool_start upstream none none none
  stored_start upstream (some b) =
      if is_tool_use b.type
      then tool_start upstream b.id b.name b.input
      else tool_start upstream none none none

  unfoldable pub synthetic_start_content_block : Kind → ℕ → Option ContentBlock → ContentBlock
  synthetic_start_content_block tool_use upstream stored = stored_start upstream stored
  synthetic_start_content_block thinking upstream stored = record {
    type = some (codes "thinking");
    id = none;
    name = none;
    input = none;
    rest = ("thinking", "") ∷ [];
  }
  synthetic_start_content_block text upstream stored = record {
    type = some (codes "text");
    id = none;
    name = none;
    input = none;
    rest = ("text", "") ∷ [];
  }

-- The segments after the others are closed, the stops that are now to be suppressed, and the events.
unfoldable pub close_each :
    ℕ → Table UpstreamBlockState → Table UpstreamBlockState × List ℕ × List Sent
close_each current [] = ([], [], [])
close_each current ((upstream, seg) ∷ t) =
    let (t', closed, out) = close_each current t in
    if eqb upstream current || not seg.is_open then ((upstream, seg) ∷ t', closed, out) else (
      (upstream, record seg { is_open = false }) ∷ t',
      upstream ∷ closed,
      stop seg.down_index ∷ out,
    )

abbrev pub add_all : List ℕ → List ℕ → List ℕ
add_all [] l = l
add_all (i ∷ is) l = add_all is (add i l)

unfoldable pub synthetic_close_other_open_blocks : ℕ → PolicyState → PolicyState × List Sent
unfolding close_each
synthetic_close_other_open_blocks current s =
    let (t, closed, out) = close_each current s.by_upstream in
    (
      record s {
        by_upstream = t;
        pending_suppressed_stops = add_all closed s.pending_suppressed_stops;
      },
      out,
    )

unfoldable pub allocate_new_segment : ℕ → Text → Option ContentBlock → PolicyState → PolicyState × ℕ
allocate_new_segment upstream block_type last_start_block s = (
  record s {
    next_index = s.next_index + 1;
    by_upstream =
        put upstream
          (record {
            block_type = block_type;
            down_index = s.next_index;
            is_open = true;
            last_start_block = last_start_block;
          })
          s.by_upstream;
  },
  s.next_index,
)

-- `content_block_start` of a block whose type is a text.
unfoldable pub started : ℕ → Text → ContentBlock → PolicyState → PolicyState × Answer
unfolding synthetic_close_other_open_blocks allocate_new_segment
started upstream block_type block s =
    let (closed, prefix) = synthetic_close_other_open_blocks upstream s in
    let (s', new_idx) = allocate_new_segment upstream block_type (some block) closed in
    (s', sent (prefix ++ start new_idx block ∷ []))

abbrev pub start_typed : ℕ → Option Text → ContentBlock → PolicyState → PolicyState × Answer
start_typed upstream none block s = (s, passed)
start_typed upstream (some t) block s = started upstream t block s

unfoldable pub transform_start :
    Bool → Option ℕ → Option ContentBlock → PolicyState → PolicyState × Answer
unfolding started should_drop_block_type
transform_start thinking_enabled index none s = (s, passed)
transform_start thinking_enabled none (some block) s = (s, passed)
transform_start thinking_enabled (some upstream) (some block) s =
    if should_drop_block_type thinking_enabled block.type
    then (record s { dropped_indexes = add upstream s.dropped_indexes }, nothing)
    else start_typed upstream block.type block s

unfoldable pub stop_at : Bool → ℕ → Option UpstreamBlockState → PolicyState → PolicyState × Answer
stop_at thinking_enabled upstream none s =
    if not thinking_enabled then (s, nothing) else (s, passed)
stop_at thinking_enabled upstream (some seg) s =
    if seg.is_open
    then (
      record s { by_upstream = put upstream (record seg { is_open = false }) s.by_upstream },
      sent (stop seg.down_index ∷ []),
    )
    else (s, nothing)

unfoldable pub transform_stop : Bool → Option ℕ → PolicyState → PolicyState × Answer
unfolding stop_at holds
transform_stop thinking_enabled none s = (s, passed)
transform_stop thinking_enabled (some upstream) s =
    if holds upstream s.dropped_indexes
    then (s, nothing)
    else if holds upstream s.pending_suppressed_stops
    then (
      record s { pending_suppressed_stops = discard upstream s.pending_suppressed_stops },
      nothing,
    )
    else stop_at thinking_enabled upstream (get upstream s.by_upstream) s

-- A segment for deltas that have none that is open: a start is put before the delta.
unfoldable pub opened_for_delta :
    ℕ → Kind → ContentBlock → Option ContentBlock → Delta → PolicyState → PolicyState × Answer
unfolding allocate_new_segment
opened_for_delta upstream kind block last_start_block d s =
    let (s', new_idx) = allocate_new_segment upstream (kind_text kind) last_start_block s in
    (s', sent (start new_idx block ∷ delta new_idx d ∷ []))

module _ (decimal : ℕ → String) where
  unfoldable pub delta_at :
      ℕ → Kind → Delta → Option UpstreamBlockState → PolicyState → PolicyState × Answer
  unfolding opened_for_delta synthetic_start_content_block
  delta_at upstream thinking d none s = (s, passed)
  delta_at upstream kind d none s =
      let block = synthetic_start_content_block decimal kind upstream none in
      opened_for_delta upstream kind block (some block) d s
  delta_at upstream kind d (some seg) s =
      if seg.is_open
      then (s, sent (delta seg.down_index d ∷ []))
      else opened_for_delta upstream kind
          (synthetic_start_content_block decimal kind upstream seg.last_start_block)
          seg.last_start_block d
          (record s { pending_suppressed_stops = discard upstream s.pending_suppressed_stops })

  abbrev pub delta_kind : ℕ → Option Kind → Delta → PolicyState → PolicyState × Answer
  delta_kind upstream none d s = (s, passed)
  delta_kind upstream (some kind) d s = delta_at upstream kind d (get upstream s.by_upstream) s

  unfoldable pub transform_delta :
      Bool → Option ℕ → Option Delta → PolicyState → PolicyState × Answer
  unfolding delta_at holds should_drop_block_type delta_type_to_block_kind
  transform_delta thinking_enabled index none s = (s, passed)
  transform_delta thinking_enabled none (some d) s = (s, passed)
  transform_delta thinking_enabled (some upstream) (some d) s =
      if holds upstream s.dropped_indexes
      then (s, nothing)
      else if should_drop_block_type thinking_enabled d.type
      then (s, nothing)
      else delta_kind upstream (delta_type_to_block_kind d.type) d s

  unfoldable pub transform_native_sse_block_event :
      Bool → Upstream → PolicyState → PolicyState × Answer
  unfolding transform_start transform_delta transform_stop
  transform_native_sse_block_event thinking_enabled (content_block_start i b) s =
      transform_start thinking_enabled i b s
  transform_native_sse_block_event thinking_enabled (content_block_delta i d) s =
      transform_delta thinking_enabled i d s
  transform_native_sse_block_event thinking_enabled (content_block_stop i) s =
      transform_stop thinking_enabled i s
  transform_native_sse_block_event thinking_enabled other s = (s, passed)
