-- ===== src/Trees/Examples.antt =====
-- Runs of messaging/trees on a chain of three messages.
use claude_unbound.Prelude.{
  ℕ, ◌≤◌, String, true, false, ◌≡◌, ◌≢◌, ◌↔◌, refl, none, some, List, [], ◌∷◌, arith, elem, ◌||◌,
  eq_iff, ◌==◌,
}
use claude_unbound.Prelude.Dict.{get, has, put as set}
use claude_unbound.Trees.Queue.{SnapshotQueue, put, get_nowait, remove_if_present}
use claude_unbound.Trees.Queue
use claude_unbound.Trees.Queue.Refinement.{
  puts, puts_nowait, removes, gets, sizes, replies, promise, promised, IsFresh, IsCoherent,
  replies-eq-promised, remove_if_present-misses,
}
use claude_unbound.Trees.Node.{IncomingMessage, MessageNode, error, new_node, set_context}
use claude_unbound.Trees.Tree.{
  MessageTree, Result, ok, raised, new_tree, add_node, update_node, enqueue, update_state,
  remove_branch, get_node, find_node_by_status_message, get_descendants,
  drain_queue_and_mark_cancelled,
}
use claude_unbound.Trees.Tree.Walk.{IsBelow, get_descendants-IsBelow}
use claude_unbound.Trees.Tree.Shape.{
  IsWellFormed, height, height-HasHeight, new_tree-IsWellFormed, add_node-IsWellFormed,
}
use claude_unbound.Trees.Tree.Keeps.{IsUpdated, update_state-IsUpdated, enqueue-IsWellFormed}
use claude_unbound.Trees.Tree.Drain.{IsDrained, drain_queue-IsDrained}
use claude_unbound.Trees.Manager.{cancel_tree_of}
use claude_unbound.Trees.Manager.Cancel.{IsCancelled, cancel_tree_of-IsCancelled}
use claude_unbound.Trees.Tree.Branch.{IsPruned, remove_branch-IsPruned}

abbrev pub hello : IncomingMessage
hello = record {
  text = "hello";
  chat_id = "c";
  user_id = "u";
  message_id = "r";
  platform = "telegram";
  reply_to_message_id = none;
  message_thread_id = none;
  username = none;
  status_message_id = none;
  timestamp = 0;
  raw_event = none;
}

abbrev pub root : MessageNode
root = new_node 0 "r" hello "s0" none

abbrev pub one : MessageTree
one = new_tree root

abbrev pub tree_or : MessageTree → Result (MessageTree × MessageNode) → MessageTree
tree_or t (raised e) = t
tree_or t (ok (u, n)) = u

-- The chain r, a, b.
abbrev pub two : MessageTree
two = tree_or one (add_node 1 "a" hello "s1" "r" one)

abbrev pub three : MessageTree
three = tree_or two (add_node 2 "b" hello "s2" "a" two)

one-IsWellFormed : IsWellFormed one
one-IsWellFormed =
    new_tree-IsWellFormed root (unfold new_node in refl) (unfold new_node in refl)
      (unfold new_node in refl)

-- The nodes of the three trees compute.
r_in_one : has "r" one.nodes ≡ true
unfolding new_tree new_node get
r_in_one = refl

a_new : (has "a" one.nodes ≡ false) × (has "s1" one.status_to_node ≡ false)
unfolding new_tree new_node get
a_new = (refl, refl)

-- `add_node` of the theorem is the tree of the definition.
module _ (t u : MessageTree) (r : Result (MessageTree × MessageNode)) (n : MessageNode) where
  same-tree : r ≡ ok (u, n) → IsWellFormed u → IsWellFormed (tree_or t r)
  same-tree e w = rw e w

add_node-IsWellFormed_example :
    (u : MessageTree) × (add_node 1 "a" hello "s1" "r" one
      ≡ ok (u, new_node 1 "a" hello "s1" (some "r")))
    × IsWellFormed u
    × (get_node u "a" ≡ some (new_node 1 "a" hello "s1" (some "r")))
    × (find_node_by_status_message u "s1" ≡ get_node u "a")
add_node-IsWellFormed_example =
    add_node-IsWellFormed 1 "a" hello "s1" "r" one one-IsWellFormed refl a_new.0 a_new.1 r_in_one

two-IsWellFormed : IsWellFormed two
two-IsWellFormed =
    let (u, e, w, g, f) = add_node-IsWellFormed_example in
    same-tree one u (add_node 1 "a" hello "s1" "r" one) (new_node 1 "a" hello "s1" (some "r")) e w

b_new :
    (has "b" two.nodes ≡ false) × (has "s2" two.status_to_node ≡ false) × (has "a" two.nodes ≡ true)
unfolding add_node new_tree new_node get set update_node
b_new = (refl, refl, refl)

pub three-IsWellFormed : IsWellFormed three
three-IsWellFormed =
    let (u, e, w, g, f) =
      add_node-IsWellFormed 2 "b" hello "s2" "a" two two-IsWellFormed refl b_new.0 b_new.1
        b_new.2 in
    same-tree two u (add_node 2 "b" hello "s2" "a" two) (new_node 2 "b" hello "s2" (some "a")) e w

a_in_three : has "a" three.nodes ≡ true
unfolding add_node new_tree new_node get set update_node
a_in_three = refl

new_tree-IsWellFormed_example : IsWellFormed (new_tree (set_context none root))
new_tree-IsWellFormed_example =
    new_tree-IsWellFormed (set_context none root) (unfold set_context new_node in refl)
      (unfold set_context new_node in refl) (unfold set_context new_node in refl)

update_state-IsUpdated_example :
    IsUpdated 5 "a" error none (some "x") three (update_state 5 "a" error none (some "x") three)
update_state-IsUpdated_example =
    update_state-IsUpdated 5 "a" error none (some "x") three three-IsWellFormed

get_descendants-IsBelow_example :
    (enough : ℕ) × (ids : List String) × ((fuel : ℕ)
      → enough ≤ fuel
      → get_descendants fuel three "a" ≡ some ids)
    × ((y : String) → (elem y ids ≡ true) ↔ IsBelow three.nodes "a" y)
get_descendants-IsBelow_example =
    get_descendants-IsBelow three (height three three-IsWellFormed) "a"
      (height-HasHeight three three-IsWellFormed) a_in_three

a_not_root : "a" ≢ three.root_id
unfolding add_node new_tree new_node get set update_node
a_not_root e = ground (arith, eq_iff "a" "r")

remove_branch-IsPruned_example :
    (enough : ℕ) × (u : MessageTree) × (removed : List MessageNode) × ((fuel : ℕ)
      → enough ≤ fuel
      → remove_branch fuel "a" three ≡ some (u, ok removed))
    × IsPruned "a" three u removed
remove_branch-IsPruned_example =
    remove_branch-IsPruned three "a" three-IsWellFormed a_in_three a_not_root

drain_queue-IsDrained_example :
    IsDrained 7 "Cancelled by user"
      (enqueue "b" (enqueue "a" three).0).0
      (drain_queue_and_mark_cancelled 7 "Cancelled by user" (enqueue "b" (enqueue "a" three).0).0)
drain_queue-IsDrained_example =
    drain_queue-IsDrained 7 "Cancelled by user" (enqueue "b" (enqueue "a" three).0).0

cancel_tree_of-IsCancelled_example :
    IsCancelled (enqueue "b" three).0 (cancel_tree_of 7 (enqueue "b" three).0).0
cancel_tree_of-IsCancelled_example =
    cancel_tree_of-IsCancelled 7 (enqueue "b" three).0
      (enqueue-IsWellFormed "b" three three-IsWellFormed).keyed

replies-eq-promised_example :
    replies (puts "a" ∷ puts_nowait "b" ∷ removes "a" ∷ gets ∷ sizes ∷ puts "a" ∷ []) Queue.empty
    ≡ promised (puts "a" ∷ puts_nowait "b" ∷ removes "a" ∷ gets ∷ sizes ∷ puts "a" ∷ []) []
unfolding IsFresh promise
replies-eq-promised_example =
    replies-eq-promised (puts "a" ∷ puts_nowait "b" ∷ removes "a" ∷ gets ∷ sizes ∷ puts "a" ∷ [])
      (refl, (refl, (tt, (tt, (tt, (refl, tt))))))

waiting_a-IsCoherent : IsCoherent (record { deque = "a" ∷ []; set = λ x. ("a" == x) || false })
waiting_a-IsCoherent = record { index = λ x. refl; distinct = (refl, tt) }

remove_if_present-misses_example :
    (q : SnapshotQueue) × (get_nowait
        (put (record { deque = "a" ∷ []; set = λ x. ("a" == x) || false }) "a")
      ≡ some ("a", q))
    × (elem "a" q.deque ≡ true)
    × (remove_if_present q "a" ≡ (false, q))
remove_if_present-misses_example =
    remove_if_present-misses "a" [] (λ x. ("a" == x) || false) waiting_a-IsCoherent
