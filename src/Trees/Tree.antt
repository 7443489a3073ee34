-- ===== src/Trees/Tree.antt =====
-- messaging/trees/data.py, class MessageTree. The dictionary of nodes holds each node object under
-- one key, so a write to a node object is a write to the entry. A task is its node, whether it is
-- done, and whether its cancellation is requested. What runs under the tree's lock is one step.
pub mod Nodes
pub mod Drain
pub mod Walk
pub mod Shape
pub mod Keeps
pub mod Delete
pub mod Prune
pub mod Branch
use claude_unbound.Prelude.{
  ℕ, zero, suc, ◌+◌, String, Bool, true, false, not, ◌&&◌, Option, none, some, List, [], ◌∷◌, ◌++◌,
  reverse, ◌==◌, truthy, truthy?, elem, without, is_some, if◌then◌else◌,
}
use claude_unbound.Prelude.Dict.{Dict, get, put as set, erase, has, values, map_values}
use claude_unbound.Trees.Queue
use claude_unbound.Trees.Queue.{SnapshotQueue}
use claude_unbound.Trees.Node.{
  IncomingMessage, MessageState, MessageNode, new_node, set_node_error_sync, is_terminal,
}

pub record Task : Type 0 where
  pub node_id : String
  pub done : Bool
  pub cancelled : Bool

pub record MessageTree : Type 0 where
  pub root_id : String
  pub nodes : Dict MessageNode
  pub status_to_node : Dict String
  pub queue : SnapshotQueue
  pub is_processing : Bool
  pub current_node_id : Option String
  pub current_task : Option Task

-- What the code raises: `ValueError` and `KeyError`.
pub data Error : Type 0 where
  value_error key_error : Error

pub data Result {ℓ} (A : Type ℓ) : Type ℓ where
  ok : A → Result A
  raised : Error → Result A

-- `MessageTree(root_node)`.
unfoldable pub new_tree : MessageNode → MessageTree
new_tree root = record {
  root_id = root.node_id;
  nodes = (root.node_id, root) ∷ [];
  status_to_node = (root.status_message_id, root.node_id) ∷ [];
  queue = Queue.empty;
  is_processing = false;
  current_node_id = none;
  current_task = none;
}

-- A write to the object that stands under a key.
write :
    (MessageNode → MessageNode) → Option MessageNode → String → Dict MessageNode → Dict MessageNode
write f none k d = d
write f (some n) k d = set k (f n) d

unfoldable pub update_node :
    String → (MessageNode → MessageNode) → Dict MessageNode → Dict MessageNode
unfolding write
update_node k f d = write f (get k d) k d

unfoldable pub set_current_task : Option Task → MessageTree → MessageTree
set_current_task task t = record t { current_task = task }

abbrev pub append_child : String → MessageNode → MessageNode
append_child c n = record n { children_ids = n.children_ids ++ c ∷ [] }

unfoldable pub add_node :
    ℕ
    → String
    → IncomingMessage
    → String
    → String
    → MessageTree
    → Result (MessageTree × MessageNode)
add_node now node_id incoming status_message_id parent_id t =
    let node : MessageNode = new_node now node_id incoming status_message_id (some parent_id) in
    if has parent_id t.nodes
    then ok (
      record t {
        nodes = update_node parent_id (append_child node_id) (set node_id node t.nodes);
        status_to_node = set status_message_id node_id t.status_to_node;
      },
      (if parent_id == node_id then append_child node_id node else node),
    )
    else raised value_error

unfoldable pub get_node : MessageTree → String → Option MessageNode
get_node t node_id = get node_id t.nodes

-- `self._nodes[self.root_id]`.
unfoldable pub get_root : MessageTree → Result MessageNode
get_root t = elim (get t.root_id t.nodes) [ none ↦ raised key_error | some n ↦ ok n ]

-- `[self._nodes[cid] for cid in ids if cid in self._nodes]`.
unfoldable pub present : Dict MessageNode → List String → List MessageNode
present d [] = []
present d (c ∷ cs) = let rest = present d cs in elim (get c d) [ none ↦ rest | some n ↦ n ∷ rest ]

unfoldable pub get_children : MessageTree → String → List MessageNode
get_children t node_id = elim (get node_id t.nodes) [
  | none ↦ []
  | some n ↦ present t.nodes n.children_ids
]

parent_of : Dict MessageNode → Option String → Option MessageNode
parent_of d none = none
parent_of d (some p) = if truthy p then get p d else none

unfoldable pub get_parent : MessageTree → String → Option MessageNode
unfolding parent_of
get_parent t node_id = elim (get node_id t.nodes) [
  | none ↦ none
  | some n ↦ parent_of t.nodes n.parent_id
]

unfoldable pub get_parent_session_id : MessageTree → String → Option String
get_parent_session_id t node_id = elim (get_parent t node_id) [
  | none ↦ none
  | some p ↦ p.session_id
]

-- `if value: field = value`.
abbrev pub overwrite : Option String → Option String → Option String
overwrite value old = if truthy? value then value else old

unfoldable pub set_state :
    ℕ → MessageState → Option String → Option String → MessageNode → MessageNode
set_state now state session_id error_message n = record n {
  state = state;
  session_id = overwrite session_id n.session_id;
  error_message = overwrite error_message n.error_message;
  completed_at = if is_terminal state then some now else n.completed_at;
}

unfoldable pub update_state :
    ℕ → String → MessageState → Option String → Option String → MessageTree → MessageTree
update_state now node_id state session_id error_message t = record t {
  nodes = update_node node_id (set_state now state session_id error_message) t.nodes;
}

unfoldable pub enqueue : String → MessageTree → MessageTree × ℕ
enqueue node_id t = let q = Queue.put t.queue node_id in (record t { queue = q }, Queue.qsize q)

unfoldable pub dequeue : MessageTree → Option String × MessageTree
dequeue t = elim (Queue.get_nowait t.queue) [
  | none ↦ (none, t)
  | some (x, q) ↦ (some x, record t { queue = q })
]

unfoldable pub get_queue_snapshot : MessageTree → List String
get_queue_snapshot t = Queue.get_snapshot t.queue

unfoldable pub get_queue_size : MessageTree → ℕ
get_queue_size t = Queue.qsize t.queue

unfoldable pub remove_from_queue : String → MessageTree → Bool × MessageTree
remove_from_queue node_id t =
    let (b, q) = Queue.remove_if_present t.queue node_id in (b, record t { queue = q })

unfoldable pub set_processing_state : Option String → Bool → MessageTree → MessageTree
set_processing_state node_id is_processing t = record t {
  is_processing = is_processing;
  current_node_id = if is_processing then node_id else none;
}

unfoldable pub clear_current_node : MessageTree → MessageTree
clear_current_node t = record t { current_node_id = none }

abbrev pub same : Option String → String → Bool
same none node_id = false
same (some c) node_id = c == node_id

unfoldable pub is_current_node : MessageTree → String → Bool
is_current_node t node_id = same t.current_node_id node_id

unfoldable pub put_queue_unlocked : String → MessageTree → MessageTree
put_queue_unlocked node_id t = record t { queue = Queue.put_nowait t.queue node_id }

cancel_task : Option Task → MessageTree → Bool × MessageTree
cancel_task none t = (false, t)
cancel_task (some task) t =
    if task.done
    then (false, t)
    else (true, record t { current_task = some (record task { cancelled = true }) })

unfoldable pub cancel_current_task : MessageTree → Bool × MessageTree
unfolding cancel_task
cancel_current_task t = cancel_task t.current_task t

unfoldable pub reset_processing_state : MessageTree → MessageTree
reset_processing_state t = record t { is_processing = false; current_node_id = none }

unfoldable pub all_nodes : MessageTree → List MessageNode
all_nodes t = values t.nodes

unfoldable pub has_node : MessageTree → String → Bool
has_node t node_id = has node_id t.nodes

unfoldable pub find_node_by_status_message : MessageTree → String → Option MessageNode
find_node_by_status_message t status_msg_id = elim (get status_msg_id t.status_to_node) [
  | none ↦ none
  | some node_id ↦ if truthy node_id then get node_id t.nodes else none
]

-- The `while True` loop that empties the queue. Each round takes one item out, so as many rounds
-- as there are items, and one more, are enough.
drain_loop :
    ℕ → ℕ → String → MessageTree → List MessageNode → Option (MessageTree × List MessageNode)
drain_loop zero now msg t nodes = none
drain_loop (suc fuel) now msg t nodes = elim (Queue.get_nowait t.queue) [
  | none ↦ some (t, nodes)
  | some (node_id, q) ↦ elim (get node_id t.nodes) [
    | none ↦ drain_loop fuel now msg (record t { queue = q }) nodes
    | some n ↦
        drain_loop fuel now msg
          (record t { queue = q; nodes = set node_id (set_node_error_sync now msg n) t.nodes })
          (nodes ++ set_node_error_sync now msg n ∷ [])
  ]
]

abbrev pub or_same :
    MessageTree → Option (MessageTree × List MessageNode) → MessageTree × List MessageNode
or_same t none = (t, [])
or_same t (some r) = r

unfoldable pub drain_queue_and_mark_cancelled :
    ℕ → String → MessageTree → MessageTree × List MessageNode
unfolding drain_loop
drain_queue_and_mark_cancelled now msg t =
    or_same t (drain_loop (suc (Queue.qsize t.queue)) now msg t [])

-- The depth-first walk; the head of the list is the top of Python's stack, so the children go on
-- it in reverse. `none`: the fuel ran out.
pushed : Dict MessageNode → String → List String → List String
pushed d nid stack = elim (get nid d) [ none ↦ stack | some n ↦ reverse n.children_ids ++ stack ]

unfoldable pub walk : ℕ → Dict MessageNode → List String → List String → Option (List String)
unfolding pushed
walk zero d stack result = none
walk (suc fuel) d [] result = some result
walk (suc fuel) d (nid ∷ stack) result = walk fuel d (pushed d nid stack) (result ++ nid ∷ [])

unfoldable pub get_descendants : ℕ → MessageTree → String → Option (List String)
get_descendants fuel t node_id =
    if has node_id t.nodes then walk fuel t.nodes (node_id ∷ []) [] else some []

-- The loop of `remove_branch`: `del` of a status message that is not there raises `KeyError`, and
-- what was deleted before stays deleted.
unfoldable pub delete_nodes :
    List String → List MessageNode → MessageTree → MessageTree × Result (List MessageNode)
delete_nodes [] removed t = (t, ok removed)
delete_nodes (nid ∷ ids) removed t = elim (get nid t.nodes) [
  | none ↦ delete_nodes ids removed t
  | some n ↦ elim (get n.status_message_id t.status_to_node) [
    | none ↦ (record t { nodes = erase nid t.nodes }, raised key_error)
    | some _ ↦ delete_nodes ids (removed ++ n ∷ []) (record t {
      nodes = erase nid t.nodes;
      status_to_node = erase n.status_message_id t.status_to_node;
    })
  ]
]

abbrev pub drop_child : String → MessageNode → MessageNode
drop_child c n =
    if elem c n.children_ids then record n { children_ids = without c n.children_ids } else n

-- The parent object is the entry under `parent_id`, if the branch did not take that out.
pub unlink : Option MessageNode → String → String → MessageTree → MessageTree
unlink none p c t = t
unlink (some _) p c t = record t { nodes = update_node p (drop_child c) t.nodes }

abbrev pub parent_key : Option MessageNode → String
parent_key none = ""
parent_key (some n) = elim n.parent_id [ none ↦ "" | some p ↦ p ]

after_delete :
    Option MessageNode
    → String
    → String
    → MessageTree × Result (List MessageNode)
    → MessageTree × Result (List MessageNode)
unfolding unlink
after_delete parent p c (t, raised e) = (t, raised e)
after_delete parent p c (t, ok removed) = (unlink parent p c t, ok removed)

unfoldable pub remove_branch :
    ℕ → String → MessageTree → Option (MessageTree × Result (List MessageNode))
unfolding after_delete
remove_branch fuel branch_root_id t =
    if has branch_root_id t.nodes
    then elim (get_descendants fuel t branch_root_id) [
      | none ↦ none
      | some ids ↦ some (
          after_delete (get_parent t branch_root_id) (parent_key (get branch_root_id t.nodes))
            branch_root_id (delete_nodes ids [] t))
    ]
    else some (t, ok [])
