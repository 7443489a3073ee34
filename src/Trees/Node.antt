-- ===== src/Trees/Node.antt =====
-- messaging/models.py, IncomingMessage, and messaging/trees/data.py, MessageState and MessageNode.
-- A `datetime` is a number of microseconds since the epoch; an object that the code only passes on
-- (`context`, `raw_event`) is the number of the object.
use claude_unbound.Prelude.{ℕ, String, Bool, true, false, Option, none, some, List, [], is_some}

pub record IncomingMessage : Type 0 where
  pub text : String
  pub chat_id : String
  pub user_id : String
  pub message_id : String
  pub platform : String
  pub reply_to_message_id : Option String
  pub message_thread_id : Option String
  pub username : Option String
  pub status_message_id : Option String
  pub timestamp : ℕ
  pub raw_event : Option ℕ

unfoldable pub is_reply : IncomingMessage → Bool
is_reply m = is_some m.reply_to_message_id

pub data MessageState : Type 0 where
  pending in_progress completed error : MessageState

-- `state in (COMPLETED, ERROR)`, and `state in (PENDING, IN_PROGRESS)`.
abbrev pub is_terminal : MessageState → Bool
is_terminal completed = true
is_terminal error = true
is_terminal _ = false

abbrev pub is_active : MessageState → Bool
is_active pending = true
is_active in_progress = true
is_active _ = false

abbrev pub is_error : MessageState → Bool
is_error error = true
is_error _ = false

abbrev pub is_pending : MessageState → Bool
is_pending pending = true
is_pending _ = false

pub record MessageNode : Type 0 where
  pub node_id : String
  pub incoming : IncomingMessage
  pub status_message_id : String
  pub state : MessageState
  pub parent_id : Option String
  pub session_id : Option String
  pub children_ids : List String
  pub created_at : ℕ
  pub completed_at : Option ℕ
  pub error_message : Option String
  pub context : Option ℕ

-- The constructor call with the defaults; `now` is what the clock shows.
unfoldable pub new_node : ℕ → String → IncomingMessage → String → Option String → MessageNode
new_node now node_id incoming status_message_id parent_id = record {
  node_id = node_id;
  incoming = incoming;
  status_message_id = status_message_id;
  state = pending;
  parent_id = parent_id;
  session_id = none;
  children_ids = [];
  created_at = now;
  completed_at = none;
  error_message = none;
  context = none;
}

unfoldable pub set_context : Option ℕ → MessageNode → MessageNode
set_context context n = record n { context = context }

-- MessageTree.set_node_error_sync, which writes to the node alone.
unfoldable pub set_node_error_sync : ℕ → String → MessageNode → MessageNode
set_node_error_sync now error_message n = record n {
  state = error;
  error_message = some error_message;
  completed_at = some now;
}
