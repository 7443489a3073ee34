-- ===== src/Trees/Manager.antt =====
-- messaging/trees/queue_manager.py, class TreeQueueManager: the repository and the processor
-- behind one interface. `now` is what the clock shows, and `fuel` bounds the walks.
pub mod Cancel
pub mod Races
use Prim.Native.String.{◌++◌ as str_append}
use mathlib.Core.Option
use claude_unbound.Prelude.{
  ℕ, suc, ◌+◌, String, Bool, true, false, not, ◌&&◌, ◌||◌, Option, none, some, List, [], ◌∷◌, ◌++◌,
  map, ◌==◌, length, elem, truthy, truthy?, if◌then◌else◌,
}
use claude_unbound.Prelude.Dict.{Dict, get, put as set, has, map_values}
use claude_unbound.Trees.Node.{
  IncomingMessage, MessageState, error, MessageNode, new_node, set_node_error_sync, is_terminal,
  is_active,
}
use claude_unbound.Trees.Tree
use claude_unbound.Trees.Tree.{
  MessageTree, Error, value_error, key_error, Result, ok, raised, new_tree, add_node, update_state,
  set_state, cancel_current_task, drain_queue_and_mark_cancelled, reset_processing_state,
  is_current_node, remove_from_queue, get_descendants, all_nodes, update_node,
}
use claude_unbound.Trees.Repository
use claude_unbound.Trees.Repository.{
  TreeRepository, get_tree, entry_for_node, get_tree_for_node, add_tree, register_node,
  unregister_nodes, remove_tree, tree_ids, pending_walk,
}
use claude_unbound.Trees.Processor.{Effect, enqueue_and_start}

-- A write to the tree object that stands under a key.
abbrev pub write_tree : String → MessageTree → TreeRepository → TreeRepository
write_tree root_id t r = record r { trees = set root_id t r.trees }

unfoldable pub create_tree :
    ℕ → String → IncomingMessage → String → TreeRepository → TreeRepository × MessageTree
create_tree now node_id incoming status_message_id r =
    let t : MessageTree = new_tree (new_node now node_id incoming status_message_id none) in
    (add_tree node_id t r, t)

added :
    String
    → String
    → TreeRepository
    → Result (MessageTree × MessageNode)
    → Result (TreeRepository × MessageTree × MessageNode)
added k node_id r (raised e) = raised e
added k node_id r (ok (t, n)) = ok (register_node node_id t.root_id (write_tree k t r), t, n)

unfoldable pub add_to_tree :
    ℕ
    → String
    → String
    → IncomingMessage
    → String
    → TreeRepository
    → Result (TreeRepository × MessageTree × MessageNode)
unfolding added
add_to_tree now parent_node_id node_id incoming status_message_id r =
    if Repository.has_node r parent_node_id
    then elim (entry_for_node r parent_node_id) [
      | none ↦ raised value_error
      | some (k, t) ↦
          added k node_id r (add_node now node_id incoming status_message_id parent_node_id t)
    ]
    else raised value_error

-- Whether the node was queued, and the effects of the processor.
unfoldable pub enqueue : String → TreeRepository → TreeRepository × Bool × List Effect
enqueue node_id r = elim (entry_for_node r node_id) [
  | none ↦ (r, false, [])
  | some (k, t) ↦
      let (t', queued, es) = enqueue_and_start node_id t in (write_tree k t' r, queued, es)
]

-- `update_state(child.node_id, ERROR, ...)` for each pending child.
mark_children : ℕ → String → List MessageNode → MessageTree → MessageTree
mark_children now msg [] t = t
mark_children now msg (n ∷ ns) t =
    mark_children now msg ns (update_state now n.node_id error none (some msg) t)

-- The nodes marked, as they stand when they are marked; a message is written if it is not empty.
unfoldable pub mark_tree_error :
    ℕ → ℕ → String → String → Bool → MessageTree → Option (MessageTree × List MessageNode)
unfolding mark_children
mark_tree_error fuel now node_id msg propagate t =
    let t' : MessageTree = elim (get node_id t.nodes) [
      | none ↦ t
      | some n ↦ update_state now node_id error none (some msg) t
    ] in
    let own : List MessageNode = elim (get node_id t.nodes) [
      | none ↦ []
      | some n ↦ set_state now error none (some msg) n ∷ []
    ] in
    let parent_msg : String = str_append "Parent failed: " msg in
    if propagate
    then elim (pending_walk fuel t'.nodes (node_id ∷ []) []) [
      | none ↦ none
      | some ns ↦ some (
        mark_children now parent_msg ns t',
        own ++ map (set_state now error none (some parent_msg)) ns,
      )
    ]
    else some (t', own)

unfoldable pub mark_node_error :
    ℕ → ℕ → String → String → Bool → TreeRepository → Option (TreeRepository × List MessageNode)
mark_node_error fuel now node_id msg propagate r = elim (entry_for_node r node_id) [
  | none ↦ some (r, [])
  | some (k, t) ↦ elim (mark_tree_error fuel now node_id msg propagate t) [
    | none ↦ none
    | some (t', ns) ↦ some (write_tree k t' r, ns)
  ]
]

-- The first lines of `cancel_tree`: the current task and its node.
cancel_current_node : ℕ → Bool → Option String → MessageTree → MessageTree × List MessageNode
cancel_current_node now false current t = (t, [])
cancel_current_node now true none t = (t, [])
cancel_current_node now true (some id) t = elim (get id t.nodes) [
  | none ↦ (t, [])
  | some n ↦
      let marked = set_node_error_sync now "Cancelled by user" n in
      if truthy id && not (is_terminal n.state)
      then (record t { nodes = set id marked t.nodes }, marked ∷ [])
      else (t, [])
]

-- The clean-up of the nodes that are still PENDING or IN_PROGRESS.
unfoldable pub clean_node : ℕ → String → List String → MessageNode → MessageNode
clean_node now msg spared n =
    if is_active n.state && not (elem n.node_id spared) then set_node_error_sync now msg n else n

unfoldable pub cancel_tree_of : ℕ → MessageTree → MessageTree × List MessageNode
unfolding cancel_current_node clean_node reset_processing_state
cancel_tree_of now t =
    let (running, t₁) = cancel_current_task t in
    let (t₂, current) = cancel_current_node now running t₁.current_node_id t₁ in
    let (t₃, queued) = drain_queue_and_mark_cancelled now "Cancelled by user" t₂ in
    let cancelled = current ++ queued in
    let spared = map (λ (n : MessageNode). n.node_id) cancelled in
    (
      reset_processing_state (record t₃ {
        nodes = map_values (clean_node now "Stale task cleaned up" spared) t₃.nodes;
      }),
      cancelled,
    )

unfoldable pub cancel_tree : ℕ → String → TreeRepository → TreeRepository × List MessageNode
cancel_tree now root_id r = elim (get_tree r root_id) [
  | none ↦ (r, [])
  | some t ↦ let (t', ns) = cancel_tree_of now t in (write_tree root_id t' r, ns)
]

-- One node of `cancel_branch`, and the body of `cancel_node` for a node that can be cancelled: the
-- task of the current node is cancelled, another node leaves the queue.
unfoldable pub cancel_node_of : ℕ → String → MessageTree → MessageTree × List MessageNode
cancel_node_of now node_id t = elim (get node_id t.nodes) [
  | none ↦ (t, [])
  | some n ↦
      let marked = set_node_error_sync now "Cancelled by user" n in
      let (b, t₁) = if is_current_node t node_id then cancel_current_task t else (false, t) in
      let (b', t₂) = remove_from_queue node_id t₁ in
      if is_terminal n.state
      then (t, [])
      else (record t₂ { nodes = set node_id marked t₂.nodes }, marked ∷ [])
]

unfoldable pub cancel_node : ℕ → String → TreeRepository → TreeRepository × List MessageNode
cancel_node now node_id r = elim (entry_for_node r node_id) [
  | none ↦ (r, [])
  | some (k, t) ↦ let (t', ns) = cancel_node_of now node_id t in (write_tree k t' r, ns)
]

-- In `cancel_branch` the current node stays in the queue, if it waits there too.
unfoldable pub cancel_branch_node : ℕ → String → MessageTree → MessageTree × List MessageNode
cancel_branch_node now node_id t = elim (get node_id t.nodes) [
  | none ↦ (t, [])
  | some n ↦
      let marked = set_node_error_sync now "Cancelled by user" n in
      let (b, t₁) =
        if is_current_node t node_id then cancel_current_task t else remove_from_queue node_id t in
      if is_terminal n.state
      then (t, [])
      else (record t₁ { nodes = set node_id marked t₁.nodes }, marked ∷ [])
]

cancel_each : ℕ → List String → MessageTree → List MessageNode → MessageTree × List MessageNode
unfolding cancel_branch_node
cancel_each now [] t acc = (t, acc)
cancel_each now (nid ∷ ids) t acc =
    let (t', ns) = cancel_branch_node now nid t in cancel_each now ids t' (acc ++ ns)

-- `order` is the order in which Python's `set` gives the ids back.
unfoldable pub cancel_branch_of :
    ℕ
    → ℕ
    → (List String → List String)
    → String
    → MessageTree
    → Option (MessageTree × List MessageNode)
unfolding cancel_each
cancel_branch_of fuel now order branch_root_id t = elim (get_descendants fuel t branch_root_id) [
  | none ↦ none
  | some ids ↦ some (cancel_each now (order ids) t [])
]

unfoldable pub cancel_branch :
    ℕ
    → ℕ
    → (List String → List String)
    → String
    → TreeRepository
    → Option (TreeRepository × List MessageNode)
cancel_branch fuel now order branch_root_id r = elim (entry_for_node r branch_root_id) [
  | none ↦ some (r, [])
  | some (k, t) ↦ elim (cancel_branch_of fuel now order branch_root_id t) [
    | none ↦ none
    | some (t', ns) ↦ some (write_tree k t' r, ns)
  ]
]

cancel_trees :
    ℕ → List String → TreeRepository → List MessageNode → TreeRepository × List MessageNode
unfolding cancel_tree
cancel_trees now [] r acc = (r, acc)
cancel_trees now (k ∷ ks) r acc =
    let (r', ns) = cancel_tree now k r in cancel_trees now ks r' (acc ++ ns)

unfoldable pub cancel_all : ℕ → TreeRepository → TreeRepository × List MessageNode
unfolding cancel_trees tree_ids
cancel_all now r = cancel_trees now (tree_ids r) r []

-- On start-up every PENDING or IN_PROGRESS node becomes an ERROR; the count comes back.
stale_count : List MessageNode → ℕ
stale_count [] = 0
stale_count (n ∷ ns) = let rest = stale_count ns in if is_active n.state then suc rest else rest

stale_in : List MessageTree → ℕ
unfolding stale_count all_nodes
stale_in [] = 0
stale_in (t ∷ ts) = stale_count (all_nodes t) + stale_in ts

abbrev pub clean_tree : ℕ → MessageTree → MessageTree
clean_tree now t = record t {
  nodes = map_values (clean_node now "Lost during server restart" []) t.nodes;
}

unfoldable pub cleanup_stale_nodes : ℕ → TreeRepository → TreeRepository × ℕ
unfolding stale_in clean_node
cleanup_stale_nodes now r =
    (record r { trees = map_values (clean_tree now) r.trees }, stale_in (Repository.all_trees r))

-- The result of `remove_branch`: the removed nodes, the root id, and whether the whole tree went.
pub record Removal : Type 0 where
  pub removed : List MessageNode
  pub root_id : String
  pub entire : Bool

branch_removed :
    String
    → String
    → TreeRepository
    → MessageTree × Result (List MessageNode)
    → TreeRepository × Result Removal
branch_removed k root_id r (t, raised e) = (write_tree k t r, raised e)
branch_removed k root_id r (t, ok ns) = (
  unregister_nodes (map (λ n. n.node_id) ns) (write_tree k t r),
  ok (record { removed = ns; root_id = root_id; entire = false }),
)

tree_removed :
    String
    → List MessageNode
    → TreeRepository × Option MessageTree
    → TreeRepository × Result Removal
unfolding all_nodes
tree_removed root_id cancelled (r, none) =
    (r, ok (record { removed = cancelled; root_id = root_id; entire = true }))
tree_removed root_id cancelled (r, some t) =
    (r, ok (record { removed = all_nodes t; root_id = root_id; entire = true }))

unfoldable pub remove_branch :
    ℕ → ℕ → String → TreeRepository → Option (TreeRepository × Result Removal)
unfolding branch_removed tree_removed
remove_branch fuel now branch_root_id r = elim (entry_for_node r branch_root_id) [
  | none ↦ some (r, ok (record { removed = []; root_id = ""; entire = false }))
  | some (k, t) ↦
      let (r', cancelled) = cancel_tree now t.root_id r in
      if branch_root_id == t.root_id
      then some (tree_removed t.root_id cancelled (remove_tree t.root_id r'))
      else Option.map (branch_removed k t.root_id r) (Tree.remove_branch fuel branch_root_id t)
]
