-- ===== src/Trees/Repository.antt =====
-- messaging/trees/queue_manager.py, class TreeRepository: the trees by root id, and the root id of
-- every registered node.
use claude_unbound.Prelude.{
  ℕ, zero, suc, String, Bool, false, ◌&&◌, Option, none, some, List, [], ◌∷◌, ◌++◌, map, reverse,
  ◌==◌, truthy, length, elem, if◌then◌else◌,
}
use claude_unbound.Prelude.Dict.{Dict, get, put as set, erase, has, keys, values}
use claude_unbound.Trees.Node.{MessageNode, is_pending}
use claude_unbound.Trees.Tree
use claude_unbound.Trees.Tree.{MessageTree, all_nodes, find_node_by_status_message}

pub record TreeRepository : Type 0 where
  pub trees : Dict MessageTree
  pub node_to_tree : Dict String

abbrev pub empty : TreeRepository
empty = record { trees = []; node_to_tree = [] }

unfoldable pub get_tree : TreeRepository → String → Option MessageTree
get_tree r root_id = get root_id r.trees

-- The key under which `get_tree_for_node` finds its tree: a write to the tree goes there.
key_of : TreeRepository → Option String → Option (String × MessageTree)
key_of r none = none
key_of r (some root_id) =
    if truthy root_id
    then elim (get root_id r.trees) [ none ↦ none | some t ↦ some (root_id, t) ]
    else none

unfoldable pub entry_for_node : TreeRepository → String → Option (String × MessageTree)
unfolding key_of
entry_for_node r node_id = key_of r (get node_id r.node_to_tree)

unfoldable pub get_tree_for_node : TreeRepository → String → Option MessageTree
unfolding entry_for_node
get_tree_for_node r node_id = elim (entry_for_node r node_id) [ none ↦ none | some (k, t) ↦ some t ]

unfoldable pub get_node : TreeRepository → String → Option MessageNode
unfolding get_tree_for_node
get_node r node_id = elim (get_tree_for_node r node_id) [
  | none ↦ none
  | some t ↦ get node_id t.nodes
]

unfoldable pub add_tree : String → MessageTree → TreeRepository → TreeRepository
add_tree root_id t r = record {
  trees = set root_id t r.trees;
  node_to_tree = set root_id root_id r.node_to_tree;
}

unfoldable pub register_node : String → String → TreeRepository → TreeRepository
register_node node_id root_id r = record r { node_to_tree = set node_id root_id r.node_to_tree }

unfoldable pub has_node : TreeRepository → String → Bool
has_node r node_id = has node_id r.node_to_tree

unfoldable pub tree_count : TreeRepository → ℕ
tree_count r = length r.trees

unfoldable pub is_tree_busy : TreeRepository → String → Bool
is_tree_busy r root_id = elim (get root_id r.trees) [ none ↦ false | some t ↦ t.is_processing ]

unfoldable pub is_node_tree_busy : TreeRepository → String → Bool
unfolding get_tree_for_node
is_node_tree_busy r node_id = elim (get_tree_for_node r node_id) [
  | none ↦ false
  | some t ↦ t.is_processing
]

unfoldable pub get_queue_size : TreeRepository → String → ℕ
unfolding get_tree_for_node
get_queue_size r node_id = elim (get_tree_for_node r node_id) [
  | none ↦ 0
  | some t ↦ Tree.get_queue_size t
]

unfoldable pub resolve_parent_node_id : TreeRepository → String → Option String
unfolding get_tree_for_node
resolve_parent_node_id r msg_id = elim (get_tree_for_node r msg_id) [
  | none ↦ none
  | some t ↦
      if Tree.has_node t msg_id
      then some msg_id
      else elim (find_node_by_status_message t msg_id) [ none ↦ none | some n ↦ some n.node_id ]
]

-- `for child_id in node.children_ids`: the pending children, with their ids.
unfoldable pub pending_of : Dict MessageNode → List String → List (String × MessageNode)
pending_of d [] = []
pending_of d (c ∷ cs) =
    let rest = pending_of d cs in
    elim (get c d) [ none ↦ rest | some n ↦ if is_pending n.state then (c, n) ∷ rest else rest ]

-- The pending children of the node that the walk pops, if it is in the tree.
unfoldable pub found_pending : Dict MessageNode → String → List (String × MessageNode)
unfolding pending_of
found_pending d nid = elim (get nid d) [ none ↦ [] | some n ↦ pending_of d n.children_ids ]

-- The head of the stack is its top. `none`: the fuel ran out.
unfoldable pub pending_walk :
    ℕ → Dict MessageNode → List String → List MessageNode → Option (List MessageNode)
unfolding found_pending
pending_walk zero d stack pending = none
pending_walk (suc fuel) d [] pending = some pending
pending_walk (suc fuel) d (nid ∷ stack) pending =
    pending_walk fuel d (reverse (map (λ p. p.0) (found_pending d nid)) ++ stack)
      (pending ++ map (λ p. p.1) (found_pending d nid))

unfoldable pub get_pending_children : ℕ → TreeRepository → String → Option (List MessageNode)
unfolding get_tree_for_node
get_pending_children fuel r node_id = elim (get_tree_for_node r node_id) [
  | none ↦ some []
  | some t ↦ pending_walk fuel t.nodes (node_id ∷ []) []
]

unfoldable pub all_trees : TreeRepository → List MessageTree
all_trees r = values r.trees

unfoldable pub tree_ids : TreeRepository → List String
tree_ids r = keys r.trees

erase_all : List String → Dict String → Dict String
erase_all [] d = d
erase_all (k ∷ ks) d = erase_all ks (erase k d)

unfoldable pub unregister_nodes : List String → TreeRepository → TreeRepository
unfolding erase_all
unregister_nodes node_ids r = record r { node_to_tree = erase_all node_ids r.node_to_tree }

unfoldable pub remove_tree : String → TreeRepository → TreeRepository × Option MessageTree
unfolding erase_all all_nodes
remove_tree root_id r = elim (get root_id r.trees) [
  | none ↦ (r, none)
  | some t ↦ (
    record {
      trees = erase root_id r.trees;
      node_to_tree = erase_all (map (λ n. n.node_id) (all_nodes t)) r.node_to_tree;
    },
    some t,
  )
]

-- A Python `set` of texts as its items without repetition.
abbrev pub set_add : String → List String → List String
set_add x s = if elem x s then s else s ++ x ∷ []

node_messages : String → String → List MessageNode → List String → List String
node_messages platform chat_id [] s = s
node_messages platform chat_id (n ∷ ns) s = node_messages platform chat_id ns (
    if n.incoming.platform == platform && (n.incoming.chat_id == chat_id)
    then (let s' = set_add n.incoming.message_id s in
        if truthy n.status_message_id then set_add n.status_message_id s' else s')
    else s)

tree_messages : String → String → List MessageTree → List String → List String
tree_messages platform chat_id [] s = s
tree_messages platform chat_id (t ∷ ts) s =
    tree_messages platform chat_id ts (node_messages platform chat_id (all_nodes t) s)

unfoldable pub get_message_ids_for_chat : TreeRepository → String → String → List String
unfolding tree_messages node_messages all_nodes
get_message_ids_for_chat r platform chat_id = tree_messages platform chat_id (values r.trees) []
