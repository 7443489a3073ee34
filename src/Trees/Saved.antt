-- ===== src/Trees/Saved.antt =====
-- The serialisation of messaging/trees/data.py and messaging/trees/queue_manager.py: `to_dict` and
-- `from_dict` of a node, a tree and the repository. `isoformat` and `fromisoformat` are datetime's.
-- `clock` gives what the clock shows when the node under a key is loaded: an IncomingMessage takes
-- the time of its creation.
pub mod Node
pub mod Tree
pub mod Repository
mod Examples
use claude_unbound.Prelude.{
  ℕ, String, Bool, true, false, not, Option, none, some, List, [], ◌∷◌, map, ◌==◌, truthy,
  if◌then◌else◌,
}
use claude_unbound.Prelude.Dict.{Dict, put as set}
use claude_unbound.Trees.Json.{
  Json, null, str, arr, obj, fields, Loaded, loaded, raised, ◌>>=◌, value_or, item, item?, as_text,
  as_text?, as_list, item_or, end, nil, as_object, text?, texts,
}
use claude_unbound.Trees.Node.{
  IncomingMessage, MessageState, pending, in_progress, completed, error, MessageNode,
}
use claude_unbound.Trees.Tree.{MessageTree, Error, value_error, new_tree}
use claude_unbound.Trees.Repository.{TreeRepository}

-- `MessageState.value`, and `MessageState(value)`, which raises `ValueError` on any other text.
abbrev pub state_value : MessageState → String
state_value pending = "pending"
state_value in_progress = "in_progress"
state_value completed = "completed"
state_value error = "error"

unfoldable pub state_of : String → Loaded MessageState
state_of s =
    if s == "pending"
    then loaded pending
    else if s == "in_progress"
    then loaded in_progress
    else if s == "completed"
    then loaded completed
    else if s == "error"
    then loaded error
    else raised value_error

module _ (isoformat : ℕ → String) (fromisoformat : String → Option ℕ) where
  abbrev pub time? : Option ℕ → Json
  time? none = null
  time? (some t) = str (isoformat t)

  unfoldable pub node_to_dict : MessageNode → Json
  node_to_dict n = obj (
      fields (
        ("node_id", str n.node_id)
        ∷ (
          "incoming",
          obj (
              fields (
                ("text", str n.incoming.text)
                ∷ ("chat_id", str n.incoming.chat_id)
                ∷ ("user_id", str n.incoming.user_id)
                ∷ ("message_id", str n.incoming.message_id)
                ∷ ("platform", str n.incoming.platform)
                ∷ ("reply_to_message_id", text? n.incoming.reply_to_message_id)
                ∷ ("message_thread_id", text? n.incoming.message_thread_id)
                ∷ ("username", text? n.incoming.username)
                ∷ [])),
        )
        ∷ ("status_message_id", str n.status_message_id)
        ∷ ("state", str (state_value n.state))
        ∷ ("parent_id", text? n.parent_id)
        ∷ ("session_id", text? n.session_id)
        ∷ ("children_ids", arr (texts n.children_ids))
        ∷ ("created_at", str (isoformat n.created_at))
        ∷ ("completed_at", time? n.completed_at)
        ∷ ("error_message", text? n.error_message)
        ∷ []))

  unfoldable pub incoming_from_dict : ℕ → Json → Loaded IncomingMessage
  incoming_from_dict now d = do
    text ← item "text" d >>= as_text
    chat_id ← item "chat_id" d >>= as_text
    user_id ← item "user_id" d >>= as_text
    message_id ← item "message_id" d >>= as_text
    platform ← item "platform" d >>= as_text
    reply_to ← item? "reply_to_message_id" d >>= as_text?
    thread ← item? "message_thread_id" d >>= as_text?
    username ← item? "username" d >>= as_text?
    loaded (record {
      text = text;
      chat_id = chat_id;
      user_id = user_id;
      message_id = message_id;
      platform = platform;
      reply_to_message_id = reply_to;
      message_thread_id = thread;
      username = username;
      status_message_id = none;
      timestamp = now;
      raw_event = none;
    })

  -- `datetime.fromisoformat`, which raises `ValueError`; a text that is empty, or `None`, is no time.
  abbrev pub time_of : String → Loaded ℕ
  time_of s = value_or value_error (fromisoformat s)

  abbrev pub some_time : Loaded ℕ → Loaded (Option ℕ)
  some_time t = t >>= λ n. loaded (some n)

  abbrev pub time_of? : Option String → Loaded (Option ℕ)
  time_of? none = loaded none
  time_of? (some s) = if truthy s then some_time (time_of s) else loaded none

  unfoldable pub node_from_dict : ℕ → Json → Loaded MessageNode
  unfolding incoming_from_dict state_of
  node_from_dict now d = do
    incoming ← item "incoming" d >>= incoming_from_dict now
    node_id ← item "node_id" d >>= as_text
    status_message_id ← item "status_message_id" d >>= as_text
    state ← item "state" d >>= as_text >>= state_of
    parent_id ← item? "parent_id" d >>= as_text?
    session_id ← item? "session_id" d >>= as_text?
    children_ids ← item_or "children_ids" (arr nil) d >>= as_list
    created_at ← item "created_at" d >>= as_text >>= time_of
    completed_at ← item? "completed_at" d >>= as_text? >>= time_of?
    error_message ← item? "error_message" d >>= as_text?
    loaded (record {
      node_id = node_id;
      incoming = incoming;
      status_message_id = status_message_id;
      state = state;
      parent_id = parent_id;
      session_id = session_id;
      children_ids = children_ids;
      created_at = created_at;
      completed_at = completed_at;
      error_message = error_message;
      context = none;
    })

  unfoldable pub tree_to_dict : MessageTree → Json
  unfolding node_to_dict
  tree_to_dict t = obj (
      fields (
        ("root_id", str t.root_id)
        ∷ ("nodes", obj (fields (map (λ e. (e.0, node_to_dict e.1)) t.nodes)))
        ∷ []))

  unfoldable pub add_node_from_dict : MessageNode → MessageTree → MessageTree
  add_node_from_dict n t = record t {
    nodes = set n.node_id n t.nodes;
    status_to_node = set n.status_message_id n.node_id t.status_to_node;
  }

  unfoldable pub add_nodes :
      (String → ℕ) → String → List (String × Json) → MessageTree → Loaded MessageTree
  unfolding add_node_from_dict
  add_nodes clock root_id [] t = loaded t
  add_nodes clock root_id ((k, d) ∷ es) t =
      let more : Loaded MessageTree =
        node_from_dict (clock k) d >>= λ n. add_nodes clock root_id es (add_node_from_dict n t) in
      let rest : Loaded MessageTree = add_nodes clock root_id es t in
      if not (k == root_id) then more else rest

  unfoldable pub tree_from_dict : (String → ℕ) → Json → Loaded MessageTree
  unfolding add_nodes
  tree_from_dict clock d = do
    root_id ← item "root_id" d >>= as_text
    nodes_data ← item "nodes" d
    root ← item root_id nodes_data >>= node_from_dict (clock root_id)
    entries ← as_object nodes_data
    add_nodes clock root_id entries (new_tree root)

  unfoldable pub repository_to_dict : TreeRepository → Json
  unfolding tree_to_dict
  repository_to_dict r = obj (
      fields (
        ("trees", obj (fields (map (λ e. (e.0, tree_to_dict e.1)) r.trees)))
        ∷ ("node_to_tree", obj (fields (map (λ e. (e.0, str e.1)) r.node_to_tree)))
        ∷ []))

  unfoldable pub add_trees :
      (String → ℕ) → List (String × Json) → Dict MessageTree → Loaded (Dict MessageTree)
  unfolding tree_from_dict
  add_trees clock [] ts = loaded ts
  add_trees clock ((k, d) ∷ es) ts = tree_from_dict clock d >>= λ t. add_trees clock es (set k t ts)

  unfoldable pub texts_from : List (String × Json) → Loaded (Dict String)
  texts_from [] = loaded []
  texts_from ((k, d) ∷ es) = as_text d >>= λ s. texts_from es >>= λ ss. loaded ((k, s) ∷ ss)

  unfoldable pub repository_from_dict : (String → ℕ) → Json → Loaded TreeRepository
  unfolding add_trees texts_from
  repository_from_dict clock d = do
    trees_data ← item_or "trees" (obj end) d >>= as_object
    trees ← add_trees clock trees_data []
    node_to_tree ← item_or "node_to_tree" (obj end) d >>= as_object >>= texts_from
    loaded (record { trees = trees; node_to_tree = node_to_tree })
