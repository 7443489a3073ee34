-- ===== src/Sse.antt =====
-- core/anthropic/sse.py: the builder of Anthropic stream events. An event is a value here, with the
-- fields that the code puts into its JSON; how it is written as text is `format_sse_event`'s.
-- A generator is the list of what it yields, beside the state that it leaves.
mod Examples
pub mod Wire
pub mod Blocks
pub mod Moves
pub mod Protocol
pub mod Notes
pub mod Stream
pub mod TaskArgs
use Prim.Native.String.{◌++◌ as str_append}
use package.text.Mathlib.Text.{starts_with}
use claude_unbound.Prelude.{
  ℕ, zero, suc, ◌+◌, ◌*◌, ◌/◌, String, Bool, true, false, not, ◌&&◌, ◌||◌, Option, none, some, List,
  [], ◌∷◌, ◌++◌, map, ◌==◌, ltb, truthy, truthy?, is_some, if◌then◌else◌,
}
use claude_unbound.Prelude.Table.{ℤ, pos, negsuc, Table, get, put, has}

-- A JSON object that is passed on as it is: its keys and the texts of their values.
abbrev pub Extra : Type 0
Extra = List (String × String)

abbrev pub extra_truthy : Option Extra → Bool
extra_truthy none = false
extra_truthy (some []) = false
extra_truthy (some (e ∷ es)) = true

pub data Block : Type 0 where
  thinking text : Block
  tool_use : String → String → Option Extra → Block

pub data Delta : Type 0 where
  thinking_delta text_delta input_json_delta : String → Delta

pub record Usage : Type 0 where
  pub input_tokens : ℕ
  pub output_tokens : ℕ
  pub cache_read_input_tokens : Option ℕ

pub data Event : Type 0 where
  message_start : String → String → Usage → Event
  message_delta : String → Usage → Event
  message_stop : Event
  content_block_start : ℤ → Block → Event
  content_block_delta : ℤ → Delta → Event
  content_block_stop : ℤ → Event
  top_level_error : String → Event

unfoldable pub map_stop_reason : Option String → String
map_stop_reason none = "end_turn"
map_stop_reason (some r) =
    if r == "stop"
    then "end_turn"
    else if r == "length"
    then "max_tokens"
    else if r == "tool_calls"
    then "tool_use"
    else "end_turn"

pub record ToolCallState : Type 0 where
  pub block_index : ℤ
  pub tool_id : String
  pub name : String
  pub extra_content : Option Extra
  pub contents : List String
  pub started : Bool
  pub task_arg_buffer : String
  pub task_args_emitted : Bool
  pub pre_start_args : String

-- `ToolCallState(block_index=-1, tool_id="", name=name)`.
abbrev pub new_tool : String → ToolCallState
new_tool name = record {
  block_index = negsuc 0;
  tool_id = "";
  name = name;
  extra_content = none;
  contents = [];
  started = false;
  task_arg_buffer = "";
  task_args_emitted = false;
  pre_start_args = "";
}

pub record ContentBlockManager : Type 0 where
  pub next_index : ℕ
  pub thinking_index : ℤ
  pub text_index : ℤ
  pub thinking_started : Bool
  pub text_started : Bool
  pub tool_states : Table ToolCallState

abbrev pub no_blocks : ContentBlockManager
no_blocks = record {
  next_index = 0;
  thinking_index = negsuc 0;
  text_index = negsuc 0;
  thinking_started = false;
  text_started = false;
  tool_states = [];
}

unfoldable pub allocate_index : ContentBlockManager → ℕ × ContentBlockManager
allocate_index b = (b.next_index, record b { next_index = b.next_index + 1 })

-- The state of a tool, new if there is none.
abbrev pub tool_or_new : Option ToolCallState → ToolCallState
tool_or_new none = new_tool ""
tool_or_new (some s) = s

unfoldable pub ensure_tool_state : ℕ → ContentBlockManager → ContentBlockManager × ToolCallState
ensure_tool_state index b =
    if has index b.tool_states
    then (b, tool_or_new (get index b.tool_states))
    else (record b { tool_states = put index (new_tool "") b.tool_states }, new_tool "")

unfoldable pub set_stream_tool_id : ℕ → Option String → ContentBlockManager → ContentBlockManager
unfolding ensure_tool_state
set_stream_tool_id index none b = b
set_stream_tool_id index (some tool_id) b =
    let (b', s) = ensure_tool_state index b in
    if truthy tool_id
    then record b' { tool_states = put index (record s { tool_id = tool_id }) b'.tool_states }
    else b

unfoldable pub set_tool_extra_content : ℕ → Option Extra → ContentBlockManager → ContentBlockManager
unfolding ensure_tool_state
set_tool_extra_content index extra b =
    let (b', s) = ensure_tool_state index b in
    if extra_truthy extra
    then record b' { tool_states = put index (record s { extra_content = extra }) b'.tool_states }
    else b

-- The name that a fragment makes of the name so far.
merge_name : String → String → String
merge_name prev name =
    if not (truthy prev) || starts_with name prev
    then name
    else if not (starts_with prev name)
    then str_append prev name
    else prev

unfoldable pub register_tool_name : ℕ → String → ContentBlockManager → ContentBlockManager
unfolding merge_name
register_tool_name index name b = record b {
  tool_states =
      put index
        (elim (get index b.tool_states) [
          | none ↦ new_tool name
          | some s ↦ record s { name = merge_name s.name name }
        ])
        b.tool_states;
}

any_started : Table ToolCallState → Bool
any_started [] = false
any_started ((i, s) ∷ t) = s.started || any_started t

unfoldable pub has_emitted_tool_block : ContentBlockManager → Bool
unfolding any_started
has_emitted_tool_block b = any_started b.tool_states

pub record SseBuilder : Type 0 where
  pub message_id : String
  pub model : String
  pub input_tokens : ℕ
  pub blocks : ContentBlockManager
  pub text_parts : List String
  pub reasoning_parts : List String

unfoldable pub new_builder : String → String → ℕ → SseBuilder
new_builder message_id model input_tokens = record {
  message_id = message_id;
  model = model;
  input_tokens = input_tokens;
  blocks = no_blocks;
  text_parts = [];
  reasoning_parts = [];
}

unfoldable pub message_start_event : SseBuilder → SseBuilder × List Event
message_start_event s = (
  s,
  message_start s.message_id s.model (record {
    input_tokens = s.input_tokens;
    output_tokens = 1;
    cache_read_input_tokens = none;
  })
      ∷ [],
)

abbrev pub or_else : Option ℕ → ℕ → ℕ
or_else none d = d
or_else (some n) d = n

abbrev pub positive : Option ℕ → Option ℕ
positive none = none
positive (some n) = if ltb 0 n then some n else none

unfoldable pub message_delta_event :
    String → Option ℕ → Option ℕ → Option ℕ → SseBuilder → SseBuilder × List Event
message_delta_event stop_reason output_tokens input_tokens cache_read s = (
  s,
  message_delta stop_reason (record {
    input_tokens = or_else input_tokens s.input_tokens;
    output_tokens = or_else output_tokens 0;
    cache_read_input_tokens = positive cache_read;
  })
      ∷ [],
)

abbrev pub with_blocks : SseBuilder → ContentBlockManager → SseBuilder
with_blocks s b = record s { blocks = b }

unfoldable pub start_thinking_block : SseBuilder → SseBuilder × List Event
unfolding allocate_index
start_thinking_block s =
    let (idx, b) = allocate_index s.blocks in
    (
      with_blocks s (record b { thinking_index = pos idx; thinking_started = true }),
      content_block_start (pos idx) thinking ∷ [],
    )

unfoldable pub emit_thinking_delta : String → SseBuilder → SseBuilder × List Event
emit_thinking_delta content s = (
  record s { reasoning_parts = s.reasoning_parts ++ content ∷ [] },
  content_block_delta s.blocks.thinking_index (thinking_delta content) ∷ [],
)

unfoldable pub stop_thinking_block : SseBuilder → SseBuilder × List Event
stop_thinking_block s = (
  with_blocks s (record (s.blocks) { thinking_started = false }),
  content_block_stop s.blocks.thinking_index ∷ [],
)

unfoldable pub start_text_block : SseBuilder → SseBuilder × List Event
unfolding allocate_index
start_text_block s =
    let (idx, b) = allocate_index s.blocks in
    (
      with_blocks s (record b { text_index = pos idx; text_started = true }),
      content_block_start (pos idx) text ∷ [],
    )

unfoldable pub emit_text_delta : String → SseBuilder → SseBuilder × List Event
emit_text_delta content s = (
  record s { text_parts = s.text_parts ++ content ∷ [] },
  content_block_delta s.blocks.text_index (text_delta content) ∷ [],
)

unfoldable pub stop_text_block : SseBuilder → SseBuilder × List Event
stop_text_block s = (
  with_blocks s (record (s.blocks) { text_started = false }),
  content_block_stop s.blocks.text_index ∷ [],
)

-- The tool state with its block: the name that was registered stays.
unfoldable pub launch_tool :
    ℕ → String → String → Option Extra → Option ToolCallState → ToolCallState
launch_tool idx tool_id name extra none = record (new_tool name) {
  block_index = pos idx;
  tool_id = tool_id;
  extra_content = extra;
  started = true;
}
launch_tool idx tool_id name extra (some st) = record st {
  block_index = pos idx;
  tool_id = tool_id;
  extra_content = if extra_truthy extra then extra else st.extra_content;
  started = true;
}

-- Only a dictionary that is not empty is put into the event.
abbrev pub shown : Option Extra → Option Extra
shown e = if extra_truthy e then e else none

unfoldable pub start_tool_block :
    ℕ → String → String → Option Extra → SseBuilder → SseBuilder × List Event
unfolding allocate_index
start_tool_block tool_index tool_id name extra s =
    let (idx, b) = allocate_index s.blocks in
    (
      with_blocks s (record b {
        tool_states =
            put tool_index (launch_tool idx tool_id name extra (get tool_index b.tool_states))
              b.tool_states;
      }),
      content_block_start (pos idx) (tool_use tool_id name (shown extra)) ∷ [],
    )

-- `self.blocks.tool_states[tool_index]`: `none` is the `KeyError`.
unfoldable pub emit_tool_delta : ℕ → String → SseBuilder → Option (SseBuilder × List Event)
emit_tool_delta tool_index partial_json s = elim (get tool_index s.blocks.tool_states) [
  | none ↦ none
  | some st ↦ some (
    with_blocks s (record (s.blocks) {
      tool_states =
          put tool_index (record st { contents = st.contents ++ partial_json ∷ [] })
            s.blocks.tool_states;
    }),
    content_block_delta st.block_index (input_json_delta partial_json) ∷ [],
  )
]

unfoldable pub stop_tool_block : ℕ → SseBuilder → Option (List Event)
stop_tool_block tool_index s = elim (get tool_index s.blocks.tool_states) [
  | none ↦ none
  | some st ↦ some (content_block_stop st.block_index ∷ [])
]

-- `yield from`: what one generator yields before the next.
abbrev pub andthen :
    (SseBuilder → SseBuilder × List Event)
    → (SseBuilder → SseBuilder × List Event)
    → SseBuilder
    → SseBuilder × List Event
andthen f g s = let (s', es) = f s in let (s'', es') = g s' in (s'', es ++ es')

-- `if self.blocks.thinking_started: yield self.stop_thinking_block()`, and so on.
unfoldable pub stop_thinking_if : SseBuilder → SseBuilder × List Event
unfolding stop_thinking_block
stop_thinking_if s = if s.blocks.thinking_started then stop_thinking_block s else (s, [])

unfoldable pub stop_text_if : SseBuilder → SseBuilder × List Event
unfolding stop_text_block
stop_text_if s = if s.blocks.text_started then stop_text_block s else (s, [])

unfoldable pub start_thinking_if : SseBuilder → SseBuilder × List Event
unfolding start_thinking_block
start_thinking_if s = if s.blocks.thinking_started then (s, []) else start_thinking_block s

unfoldable pub start_text_if : SseBuilder → SseBuilder × List Event
unfolding start_text_block
start_text_if s = if s.blocks.text_started then (s, []) else start_text_block s

unfoldable pub ensure_thinking_block : SseBuilder → SseBuilder × List Event
ensure_thinking_block = andthen stop_text_if start_thinking_if

unfoldable pub ensure_text_block : SseBuilder → SseBuilder × List Event
ensure_text_block = andthen stop_thinking_if start_text_if

unfoldable pub close_content_blocks : SseBuilder → SseBuilder × List Event
close_content_blocks = andthen stop_thinking_if stop_text_if

-- `for tool_index, state in list(items): if state.started: yield self.stop_tool_block(tool_index)`.
unfoldable pub stop_tools : Table ToolCallState → List Event
stop_tools [] = []
stop_tools ((i, st) ∷ t) =
    let rest = stop_tools t in if st.started then content_block_stop st.block_index ∷ rest else rest

unfoldable pub close_all_blocks : SseBuilder → SseBuilder × List Event
close_all_blocks s =
    let (s', es) = close_content_blocks s in (s', es ++ stop_tools s'.blocks.tool_states)

unfoldable pub emit_error : String → SseBuilder → SseBuilder × List Event
unfolding allocate_index
emit_error error_message s =
    let (idx, b) = allocate_index s.blocks in
    (
      with_blocks s b,
      content_block_start (pos idx) text
          ∷ content_block_delta (pos idx) (text_delta error_message)
          ∷ content_block_stop (pos idx)
          ∷ [],
    )

-- The block of one tool in three events.
unfoldable pub whole_tool : String → String → String → SseBuilder → SseBuilder × List Event
unfolding allocate_index
whole_tool id name input s =
    let (idx, b) = allocate_index s.blocks in
    (
      with_blocks s b,
      content_block_start (pos idx) (tool_use id name none)
          ∷ content_block_delta (pos idx) (input_json_delta input)
          ∷ content_block_stop (pos idx)
          ∷ [],
    )

-- `input` is what json.dumps makes of the input of the tool.
unfoldable pub iter_heuristic_tool_use_sse :
    String → String → String → SseBuilder → SseBuilder × List Event
unfolding whole_tool
iter_heuristic_tool_use_sse id name input = andthen close_content_blocks (whole_tool id name input)

unfoldable pub emit_top_level_error : String → SseBuilder → SseBuilder × List Event
emit_top_level_error error_message s = (s, top_level_error error_message ∷ [])

unfoldable pub join_parts : List String → String
join_parts [] = ""
join_parts (p ∷ ps) = str_append p (join_parts ps)

unfoldable pub accumulated_text : SseBuilder → String
unfolding join_parts
accumulated_text s = join_parts s.text_parts

unfoldable pub accumulated_reasoning : SseBuilder → String
unfolding join_parts
accumulated_reasoning s = join_parts s.reasoning_parts
