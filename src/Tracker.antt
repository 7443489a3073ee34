-- ===== src/Tracker.antt =====
-- core/anthropic/emitted_sse_tracker.py, class EmittedNativeSseTracker: the content blocks of the
-- events that went to the client. An event is what `parse_sse_lines` gives: the fields that the code
-- looks up, each absent if it is missing or of another type. An index is no negative number, and
-- `next_index` is `self._max_index + 1`. Not here: `feed`, which cuts the text into events, and what
-- parses the JSON of tools.
pub mod Closing
mod Examples
use Prim.Native.String.{◌++◌ as str_append}
use claude_unbound.Prelude.{
  ℕ, zero, suc, ◌+◌, String, Bool, true, false, ◌&&◌, ◌||◌, Option, none, some, List, [], ◌∷◌, ◌++◌,
  reverse, ◌==◌, eqb, leb, truthy, is_some, if◌then◌else◌,
}
use claude_unbound.Prelude.Table.{Table, pos, get, put}
use claude_unbound.Sse
use claude_unbound.Sse.{Event, join_parts, input_json_delta, text_delta, thinking_delta}

pub record StartBlock : Type 0 where
  pub type : String
  pub id : Option String
  pub name : Option String
  pub text : Option String
  pub thinking : Option String

pub record DeltaFields : Type 0 where
  pub text : Option String
  pub thinking : Option String
  pub partial_json : Option String

pub data SseEvent : Type 0 where
  message_start : Option String → Option String → SseEvent
  content_block_start : Option ℕ → Option StartBlock → SseEvent
  content_block_delta : Option ℕ → Option DeltaFields → SseEvent
  content_block_stop : Option ℕ → SseEvent
  message_delta : Option String → SseEvent
  message_stop : SseEvent
  other : SseEvent

pub record EmittedBlockState : Type 0 where
  pub index : ℕ
  pub block_type : String
  pub opened : Bool
  pub tool_id : String
  pub name : String
  pub parts : List String

pub record Tracker : Type 0 where
  pub open_stack : List ℕ
  pub next_index : ℕ
  pub blocks : Table EmittedBlockState
  pub message_id : Option String
  pub model : String
  pub stop_reason : Option String
  pub message_stopped : Bool

abbrev pub new_tracker : Tracker
new_tracker = record {
  open_stack = [];
  next_index = 0;
  blocks = [];
  message_id = none;
  model = "";
  stop_reason = none;
  message_stopped = false;
}

unfoldable pub content : EmittedBlockState → String
content b = join_parts b.parts

abbrev pub text_or : String → Option String → String
text_or d none = d
text_or d (some s) = s

-- A text that is there and not empty replaces what was.
abbrev pub named : Option String → Option String → Option String
named none old = old
named (some s) old = if truthy s then some s else old

abbrev pub given : Option String → List String
given none = []
given (some s) = if truthy s then s ∷ [] else []

abbrev pub part : Option String → List String
part none = []
part (some s) = s ∷ []

abbrev pub higher : ℕ → ℕ → ℕ
higher next idx = if leb next idx then idx + 1 else next

unfoldable pub new_block : ℕ → StartBlock → EmittedBlockState
new_block idx b = record {
  index = idx;
  block_type = b.type;
  opened = true;
  tool_id = if b.type == "tool_use" then text_or "" b.id else "";
  name = if b.type == "tool_use" then text_or "" b.name else "";
  parts =
      if b.type == "tool_use"
      then []
      else if b.type == "text"
      then given b.text
      else if b.type == "thinking"
      then given b.thinking
      else [];
}

add_block : ℕ → Option StartBlock → Table EmittedBlockState → Table EmittedBlockState
unfolding new_block
add_block idx none t = t
add_block idx (some b) t = put idx (new_block idx b) t

unfoldable pub delta_parts : String → DeltaFields → List String
delta_parts type d =
    if type == "text"
    then part d.text
    else if type == "thinking"
    then part d.thinking
    else if type == "tool_use"
    then part d.partial_json
    else []

add_parts :
    ℕ → List String → Option EmittedBlockState → Table EmittedBlockState → Table EmittedBlockState
add_parts idx ps none t = t
add_parts idx ps (some b) t = put idx (record b { parts = b.parts ++ ps }) t

add_delta :
    ℕ
    → Option DeltaFields
    → Option EmittedBlockState
    → Table EmittedBlockState
    → Table EmittedBlockState
unfolding delta_parts add_parts
add_delta idx none b t = t
add_delta idx (some d) none t = t
add_delta idx (some d) (some b) t = add_parts idx (delta_parts b.block_type d) (some b) t

unfoldable pub close_block :
    ℕ → Option EmittedBlockState → Table EmittedBlockState → Table EmittedBlockState
close_block idx none t = t
close_block idx (some b) t = put idx (record b { opened = false }) t

-- `list.remove`, which does nothing here if the item is absent: the first one goes.
unfoldable pub remove_first : ℕ → List ℕ → List ℕ
remove_first idx [] = []
remove_first idx (i ∷ is) = let rest = remove_first idx is in if eqb i idx then is else i ∷ rest

-- The top of the stack is at the end of the list.
abbrev pub top_is : ℕ → List ℕ → Bool
top_is idx [] = false
top_is idx (i ∷ []) = eqb i idx
top_is idx (i ∷ j ∷ is) = top_is idx (j ∷ is)

unfoldable pub pop : List ℕ → List ℕ
pop [] = []
pop (i ∷ []) = []
pop (i ∷ j ∷ is) = i ∷ pop (j ∷ is)

unfoldable pub unstack : ℕ → List ℕ → List ℕ
unfolding pop remove_first
unstack idx stack = if top_is idx stack then pop stack else remove_first idx stack

unfoldable pub observe : SseEvent → Tracker → Tracker
unfolding add_block add_delta close_block unstack
observe (message_start id model) t = record t {
  message_id = named id t.message_id;
  model = text_or t.model (named model none);
}
observe (content_block_start none block) t = t
observe (content_block_start (some idx) block) t = record t {
  next_index = higher t.next_index idx;
  open_stack = t.open_stack ++ idx ∷ [];
  blocks = add_block idx block t.blocks;
}
observe (content_block_delta none delta) t = t
observe (content_block_delta (some idx) delta) t = record t {
  blocks = add_delta idx delta (get idx t.blocks) t.blocks;
}
observe (content_block_stop none) t = t
observe (content_block_stop (some idx)) t = record t {
  open_stack = unstack idx t.open_stack;
  blocks = close_block idx (get idx t.blocks) t.blocks;
}
observe (message_delta none) t = t
observe (message_delta (some reason)) t = record t { stop_reason = some reason }
observe message_stop t = record t { message_stopped = true }
observe other t = t

unfoldable pub next_content_index : Tracker → ℕ
next_content_index t = t.next_index

-- The loop that pops every open block, the last one first.
close_each : List ℕ → Table EmittedBlockState → Table EmittedBlockState × List Event
unfolding close_block
close_each [] t = (t, [])
close_each (idx ∷ is) t =
    let (t', es) = close_each is (close_block idx (get idx t) t) in
    (t', Sse.content_block_stop (pos idx) ∷ es)

unfoldable pub iter_close_unclosed_blocks : Tracker → Tracker × List Event
unfolding close_each
iter_close_unclosed_blocks t =
    let (blocks, es) = close_each (reverse t.open_stack) t.blocks in
    (record t { open_stack = []; blocks = blocks }, es)

of_type : String → Table EmittedBlockState → List EmittedBlockState
of_type type [] = []
of_type type ((k, b) ∷ t) =
    let rest = of_type type t in if b.block_type == type then b ∷ rest else rest

join_contents : List EmittedBlockState → String
unfolding content
join_contents [] = ""
join_contents (b ∷ bs) = str_append (content b) (join_contents bs)

unfoldable pub emitted_text : Tracker → String
unfolding of_type join_contents
emitted_text t = join_contents (of_type "text" t.blocks)

unfoldable pub emitted_thinking : Tracker → String
unfolding of_type join_contents
emitted_thinking t = join_contents (of_type "thinking" t.blocks)

unfoldable pub tool_blocks : Tracker → List EmittedBlockState
unfolding of_type
tool_blocks t = of_type "tool_use" t.blocks

abbrev pub any_block {ℓ} : {A : Type ℓ} → List A → Bool
any_block [] = false
any_block (b ∷ bs) = true

unfoldable pub has_tool_block : Tracker → Bool
unfolding tool_blocks
has_tool_block t = any_block (tool_blocks t)

unfoldable pub has_content_block : Tracker → Bool
has_content_block t = any_block t.blocks

unfoldable pub has_terminal_message : Tracker → Bool
has_terminal_message t = t.message_stopped

open_block : String → Option EmittedBlockState → Bool
open_block type none = false
open_block type (some b) = (b.block_type == type) && b.opened

-- `_last_open_block`, on the stack from its top.
last_open : String → List ℕ → Table EmittedBlockState → Option EmittedBlockState
unfolding open_block
last_open type [] t = none
last_open type (i ∷ is) t =
    let rest = last_open type is t in if open_block type (get i t) then get i t else rest

-- `append_text_suffix` and `append_thinking_suffix`: an open block of the type goes on, or a new one is
-- started at the next index.
append_to :
    String
    → Sse.Block
    → Sse.Delta
    → String
    → Option EmittedBlockState
    → Tracker
    → Tracker × List Event
append_to type block delta suffix (some b) t = (
  record t { blocks = put b.index (record b { parts = b.parts ++ suffix ∷ [] }) t.blocks },
  Sse.content_block_delta (pos b.index) delta ∷ [],
)
append_to type block delta suffix none t =
    let idx = t.next_index in
    (
      record t {
        next_index = idx + 1;
        open_stack = t.open_stack ++ idx ∷ [];
        blocks =
            put idx
              (record {
                index = idx;
                block_type = type;
                opened = true;
                tool_id = "";
                name = "";
                parts = suffix ∷ [];
              })
              t.blocks;
      },
      Sse.content_block_start (pos idx) block ∷ Sse.content_block_delta (pos idx) delta ∷ [],
    )

unfoldable pub append_text_suffix : String → Tracker → Tracker × List Event
unfolding append_to last_open
append_text_suffix suffix t =
    if truthy suffix
    then append_to "text" Sse.text (text_delta suffix) suffix
        (last_open "text" (reverse t.open_stack) t.blocks) t
    else (t, [])

unfoldable pub append_thinking_suffix : String → Tracker → Tracker × List Event
unfolding append_to last_open
append_thinking_suffix suffix t =
    if truthy suffix
    then append_to "thinking" Sse.thinking (thinking_delta suffix) suffix
        (last_open "thinking" (reverse t.open_stack) t.blocks) t
    else (t, [])

nth : ℕ → List EmittedBlockState → Option EmittedBlockState
nth i [] = none
nth zero (b ∷ bs) = some b
nth (suc i) (b ∷ bs) = nth i bs

unfoldable pub append_tool_repair_suffix : ℕ → String → Tracker → Tracker × List Event
unfolding nth tool_blocks
append_tool_repair_suffix tool_index suffix t = elim (nth tool_index (tool_blocks t)) [
  | none ↦ (t, [])
  | some b ↦
      if truthy suffix
      then (
        record t { blocks = put b.index (record b { parts = b.parts ++ suffix ∷ [] }) t.blocks },
        Sse.content_block_delta (pos b.index) (Sse.input_json_delta suffix) ∷ [],
      )
      else (t, [])
]

-- The message's end, if it has none yet.
unfoldable pub iter_success_tail : String → Tracker → Tracker × List Event
unfolding iter_close_unclosed_blocks
iter_success_tail stop_reason t =
    let (t', es) = iter_close_unclosed_blocks t in
    (
      t',
      es
          ++ ((if is_some t.stop_reason
                then []
                else Sse.message_delta stop_reason
                    (record { input_tokens = 0; output_tokens = 1; cache_read_input_tokens = none })
                  ∷ [])
              ++ (if t.message_stopped then [] else Sse.message_stop ∷ [])),
    )
