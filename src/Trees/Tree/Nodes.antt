-- ===== src/Trees/Tree/Nodes.antt =====
-- The node dictionary of messaging/trees/data.py under a write to one node object.
use mathlib.Core.Option
use claude_unbound.Prelude.{
  String, ◌≡◌, none, some, arith, ◌==◌, eq_iff, inl, inr, if◌then◌else◌, Option-cases,
}
use claude_unbound.Prelude.Dict.{Dict, get, has, put as set, get-put}
use claude_unbound.Trees.Node.{MessageNode}
use claude_unbound.Trees.Tree.{update_node}

module _ (k : String) (f : MessageNode → MessageNode) (d : Dict MessageNode) where
  pub get-update_node :
      (j : String)
      → get j (update_node k f d) ≡ (if k == j then Option.map f (get j d) else get j d)
  unfolding update_node
  get-update_node j = elim (Option-cases (get k d)) [
    | inl e ↦ ground (arith, eq_iff k j)
    | inr (n, e) ↦ ground (arith, eq_iff k j, get-put j k (f n) d)
  ]

  pub update_node-none : get k d ≡ none → update_node k f d ≡ d
  unfolding update_node
  update_node-none e = rw e

  pub update_node-some : (n : MessageNode) → get k d ≡ some n → update_node k f d ≡ set k (f n) d
  unfolding update_node
  update_node-some n e = rw e

  pub has-update_node : (j : String) → has j (update_node k f d) ≡ has j d
  has-update_node j = ground (arith, get-update_node j)
