-- ===== src/Trees/Tree/Branch.antt =====
-- MessageTree.remove_branch of messaging/trees/data.py on a well-formed tree.
use mathlib.Core.Option
use claude_unbound.Prelude.{
  ℕ, ◌≤◌, String, true, ◌≡◌, ◌≢◌, ◌↔◌, inl, inr, sym, ap, ◌∙◌, none, some, List, [], arith, elem,
  Bool-cases, if◌then◌else◌,
}
use claude_unbound.Prelude.Dict.{Dict, get, has}
use claude_unbound.Trees.Node.{MessageNode}
use claude_unbound.Trees.Tree.{
  MessageTree, unlink, get_descendants, after_delete, get_parent, parent_key, ok, delete_nodes,
  remove_branch, drop_child,
}
use claude_unbound.Trees.Tree.Walk.{IsBelow, get_descendants-IsBelow}
use claude_unbound.Trees.Tree.Shape.{IsWellFormed, height, height-HasHeight}
use claude_unbound.Trees.Tree.Delete.{ids_of, Deletes, deletes}
use claude_unbound.Trees.Tree.Prune.{has-listed, left-IsWellFormed, unlink-Left}

-- What `remove_branch` leaves of a tree, and what it returns.
pub record IsPruned (x : String) (t u : MessageTree) (removed : List MessageNode) : Type 0 where
  pub shape : IsWellFormed u
  -- it returns the nodes at and below `x`
  pub listed : (y : String) → (elem y (ids_of removed) ≡ true) ↔ IsBelow t.nodes x y
  -- these are gone, by their ids and by their status messages
  pub gone : (y : String) → IsBelow t.nodes x y → get y u.nodes ≡ none
  pub freed :
      (y : String) (n : MessageNode)
      → get y t.nodes ≡ some n
      → IsBelow t.nodes x y
      → get n.status_message_id u.status_to_node ≡ none
  -- the others stay, and lose `x` as a child
  pub left :
      (y : String)
      → (IsBelow t.nodes x y → ⊥)
      → get y u.nodes ≡ Option.map (drop_child x) (get y t.nodes)
  -- the queue and the processing state stay
  pub same : u ≡ record t { nodes = u.nodes; status_to_node = u.status_to_node }

abbrev with_nodes : Dict MessageNode → MessageTree → MessageTree
with_nodes d v = record v { nodes = d }

module _ (x : String) (t : MessageTree) (there : has x t.nodes ≡ true) where
  branch_run :
      (fuel : ℕ) (t' u : MessageTree) (removed : List MessageNode) {ids : List String}
      → get_descendants fuel t x ≡ some ids
      → delete_nodes ids [] t ≡ (t', ok removed)
      → unlink (get_parent t x) (parent_key (get x t.nodes)) x t' ≡ u
      → remove_branch fuel x t ≡ some (u, ok removed)
  unfolding remove_branch after_delete
  branch_run fuel t' u removed e d l =
      rw there (rw (e, remove_branch) (rw (d, remove_branch) (rw l)))

module _ (x : String) (t : MessageTree) (w : IsWellFormed t) (there : has x t.nodes ≡ true)
    (inner : x ≢ t.root_id) (ids : List String)
    (listed : (y : String) → (elem y ids ≡ true) ↔ IsBelow t.nodes x y) (t' u : MessageTree)
    (removed : List MessageNode) (d : Deletes ids [] t t' removed)
    (same : u ≡ record t' { nodes = u.nodes })
    (left : (j : String)
      → get j u.nodes
        ≡ (if elem j ids then none else Option.map (drop_child x) (get j t.nodes))) where
  same_status : (s : String) → get s u.status_to_node ≡ get s t'.status_to_node
  same_status s = ap (λ v. get s v.status_to_node) same

  same_rest : u ≡ record t { nodes = u.nodes; status_to_node = u.status_to_node }
  same_rest =
      same
      ∙ ap (with_nodes u.nodes) d.same
      ∙ ap (λ s. with_nodes u.nodes (record t { status_to_node = s }))
          (sym (ap (λ v. v.status_to_node) same))

  deleted-IsPruned : IsPruned x t u removed
  deleted-IsPruned = record {
    shape =
        left-IsWellFormed x t w there inner ids listed u
          (ap (λ v. v.root_id) same ∙ ap (λ v. v.root_id) d.same) left
          (λ s k e out. same_status s ∙ d.kept s k e out);
    listed = λ y. (
      (λ m. (listed y).0 (ground (arith, d.listed y))),
      (λ b.
          let m : elem y ids ≡ true = (listed y).1 b in
          ground (arith, d.listed y, has-listed x t w there inner ids listed y m)),
    );
    gone = λ y b. ground (arith, left y, (listed y).1 b);
    freed = λ y n e b. same_status n.status_message_id ∙ d.freed y n e ((listed y).1 b);
    left = λ y no_path. elim (Bool-cases (elem y ids)) [
      | inl m ↦ absurd (no_path ((listed y).0 m))
      | inr m ↦ ground (arith, left y)
    ];
    same = same_rest;
  }

-- On a well-formed tree `remove_branch` of a node that is not the root ends, with every fuel from
-- some number on, without an error. It returns exactly the nodes at and below that node, which are
-- gone by their ids and by their status messages; the other nodes stay, and lose it as a child; the
-- rest of the tree stays, and the tree is well formed again.
pub remove_branch-IsPruned :
    (t : MessageTree) (x : String)
    → IsWellFormed t
    → has x t.nodes ≡ true
    → x ≢ t.root_id
    → (enough : ℕ) × (u : MessageTree) × (removed : List MessageNode) × ((fuel : ℕ)
        → enough ≤ fuel
        → remove_branch fuel x t ≡ some (u, ok removed))
      × IsPruned x t u removed
remove_branch-IsPruned t x w there inner =
    let (enough, ids, walks, listed) =
      get_descendants-IsBelow t (height t w) x (height-HasHeight t w) there in
    let (t', removed, d) = deletes ids [] t (record { keyed = w.keyed; status = w.status }) in
    let (u, run, same, left) = unlink-Left x t w there inner ids listed t' d.gone in
    (
      enough,
      u,
      removed,
      (λ fuel le. branch_run x t there fuel t' u removed (walks fuel le) d.run run),
      deleted-IsPruned x t w there inner ids listed t' u removed d same left,
    )
