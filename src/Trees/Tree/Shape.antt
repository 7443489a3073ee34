-- ===== src/Trees/Tree/Shape.antt =====
-- The shape of a MessageTree (messaging/trees/data.py): keys, parents, children and status messages
-- agree, and the tree has no cycle; `add_node` keeps it.
use mathlib.Core.Option
use claude_unbound.Prelude.{
  ℕ, suc, ◌+◌, ◌-◌, ◌≤◌, ◌<◌, String, true, false, ◌≡◌, ◌≢◌, ◌⊎◌, inl, inr, refl, sym, ap, ◌∙◌,
  subst, none, some, [], ◌∷◌, ◌++◌, arith, ◌==◌, eq_iff, eq_refl, ==-cases, elem, elem-append,
  Option-cases, truthy, if◌then◌else◌,
}
use claude_unbound.Prelude.Dict.{Dict, get, has, put as set, get-put, get-put_self}
use claude_unbound.Trees.Node.{IncomingMessage, MessageNode, new_node}
use claude_unbound.Trees.Tree.{
  MessageTree, ok, raised, value_error, new_tree, add_node, get_node, find_node_by_status_message,
  update_node, append_child,
}
use claude_unbound.Trees.Tree.Nodes.{get-update_node}
use claude_unbound.Trees.Tree.Walk.{children_of, HasHeight}

pub record IsWellFormed (t : MessageTree) : Type 0 where
  -- a node stands under its id, which is no empty text, and its status message leads to it
  pub keyed : (k : String) (n : MessageNode) → get k t.nodes ≡ some n → n.node_id ≡ k
  pub named : (k : String) (n : MessageNode) → get k t.nodes ≡ some n → truthy k ≡ true
  pub status :
      (k : String) (n : MessageNode)
      → get k t.nodes ≡ some n
      → get n.status_message_id t.status_to_node ≡ some k
  pub rooted : has t.root_id t.nodes ≡ true
  pub top : (n : MessageNode) → get t.root_id t.nodes ≡ some n → n.parent_id ≡ none
  -- the children are the nodes that name the parent
  pub parented :
      (k p : String) (n : MessageNode)
      → get k t.nodes ≡ some n
      → n.parent_id ≡ some p
      → elem k (children_of t.nodes p) ≡ true
  pub owned :
      (p c : String)
      → elem c (children_of t.nodes p) ≡ true
      → (n : MessageNode) × (get c t.nodes ≡ some n) × (n.parent_id ≡ some p)
  -- depths grow towards the children
  pub depth : String → ℕ
  pub bound : ℕ
  pub bounded : (k : String) → has k t.nodes ≡ true → depth k ≤ bound
  pub deeper : (p c : String) → elem c (children_of t.nodes p) ≡ true → depth p < depth c

-- The height that the walk needs.
pub height : (t : MessageTree) → IsWellFormed t → String → ℕ
height t w x = w.bound - w.depth x

pub height-HasHeight : (t : MessageTree) (w : IsWellFormed t) → HasHeight (height t w) t.nodes
unfolding height
height-HasHeight t w x c m =
    let (n, there, _) = w.owned x c m in omega (arith, w.deeper x c m, w.bounded c (ground arith))

-- The tree of a root with a non-empty id, no parent and no children is well formed.
pub new_tree-IsWellFormed :
    (root : MessageNode)
    → truthy root.node_id ≡ true
    → root.parent_id ≡ none
    → root.children_ids ≡ []
    → IsWellFormed (new_tree root)
unfolding new_tree get
new_tree-IsWellFormed root name orphan leaf = record {
  keyed = λ k n e. ground (arith, eq_iff root.node_id k);
  named = λ k n e. ground (arith, eq_iff root.node_id k);
  status = λ k n e. ground (arith, eq_iff root.node_id k, eq_refl root.status_message_id);
  rooted = ground (arith, eq_refl root.node_id);
  top = λ n e. ground (arith, eq_refl root.node_id);
  parented = λ k p n e f. ground arith;
  owned = λ p c m. absurd (ground (arith));
  depth = λ k. 0;
  bound = 0;
  bounded = λ k m. omega arith;
  deeper = λ p c m. absurd (ground arith);
}

module _ (now : ℕ) (node_id : String) (incoming : IncomingMessage) (status_id parent_id : String)
    (t : MessageTree) where
  abbrev fresh_node : MessageNode
  fresh_node = new_node now node_id incoming status_id (some parent_id)

  abbrev grown : Dict MessageNode
  grown = update_node parent_id (append_child node_id) (set node_id fresh_node t.nodes)

  get-grown :
      (j : String)
      → has node_id t.nodes ≡ false
      → has parent_id t.nodes ≡ true
      → get j grown ≡ (
          if node_id == j
          then some fresh_node
          else if parent_id == j
          then Option.map (append_child node_id) (get j t.nodes)
          else get j t.nodes)
  get-grown j new there =
      rw
        (
          get-update_node parent_id (append_child node_id) (set node_id fresh_node t.nodes) j,
          get-put j node_id fresh_node t.nodes,
        )
        (ground (arith, eq_iff node_id j, eq_iff parent_id j))

  children_of-grown :
      (j : String)
      → has node_id t.nodes ≡ false
      → has parent_id t.nodes ≡ true
      → children_of grown j
        ≡ (if parent_id == j then children_of t.nodes j ++ node_id ∷ [] else children_of t.nodes j)
  children_of-grown j new there =
      rw (get-grown j new there)
        (unfold new_node in ground (arith, eq_iff node_id j, eq_iff parent_id j))

  abbrev grown_tree : MessageTree
  grown_tree = record t { nodes = grown; status_to_node = set status_id node_id t.status_to_node }

  module _ (w : IsWellFormed t) (name : truthy node_id ≡ true) (new : has node_id t.nodes ≡ false)
      (new_status : has status_id t.status_to_node ≡ false)
      (there : has parent_id t.nodes ≡ true) where
    -- An entry of the grown tree is the new node, or an old one up to its children.
    abbrev IsOld : String → MessageNode → MessageNode → Type 0
    IsOld k n m =
        (get k t.nodes ≡ some m)
        × (n.node_id ≡ m.node_id)
        × (n.status_message_id ≡ m.status_message_id)
        × (n.parent_id ≡ m.parent_id)

    grown-IsOld :
        (k : String) (n : MessageNode)
        → (node_id == k) ≡ false
        → get k grown ≡ some n
        → (m : MessageNode) × IsOld k n m
    grown-IsOld k n other e = elim (Option-cases (get k t.nodes)) [
      | inl f ↦ absurd (ground (arith, get-grown k new there))
      | inr (m, f) ↦ (m, ground (arith, get-grown k new there))
    ]

    grown-new : (k : String) (n : MessageNode) → node_id ≡ k → get k grown ≡ some n → n ≡ fresh_node
    grown-new k n same e = ground (arith, get-grown k new there, eq_iff node_id k)

    -- A property of the entries holds if it does of the new node and of the old ones.
    grown_cases {ℓ} :
        (P : String → MessageNode → Type ℓ)
        → P node_id fresh_node
        → ((k : String) (n m : MessageNode) → node_id ≢ k → IsOld k n m → P k n)
        → (k : String) (n : MessageNode) → get k grown ≡ some n
        → P k n
    grown_cases P fresh old k n e = elim (==-cases node_id k) [
      | inl (same, b) ↦
          subst (λ j. P j n) same (subst (P node_id) (sym (grown-new k n same e)) fresh)
      | inr (other, b) ↦ let (m, o) = grown-IsOld k n b e in old k n m other o
    ]

    status-ne :
        (k : String) (m : MessageNode)
        → get k t.nodes ≡ some m
        → (status_id == m.status_message_id) ≡ false
    status-ne k m e = ground (arith, w.status k m e, eq_iff status_id m.status_message_id)

    grown-child :
        (p c : String)
        → elem c (children_of grown p) ≡ true
        → (elem c (children_of t.nodes p) ≡ true) ⊎ ((parent_id ≡ p) × (node_id ≡ c))
    grown-child p c m = ground (
      arith,
      children_of-grown p new there,
      elem-append c (children_of t.nodes p) (node_id ∷ []),
      eq_iff parent_id p,
      eq_iff node_id c,
    )

    old_ends :
        (p c : String)
        → elem c (children_of t.nodes p) ≡ true
        → ((node_id == p) ≡ false) × ((node_id == c) ≡ false)
    old_ends p c m =
        let (n, g, _) = w.owned p c m in ground (arith, eq_iff node_id p, eq_iff node_id c)

    grown-owned :
        (p c : String)
        → elem c (children_of grown p) ≡ true
        → (n : MessageNode) × (get c grown ≡ some n) × (n.parent_id ≡ some p)
    grown-owned p c m = elim (grown-child p c m) [
      | inl old ↦
          let (n, g, q) = w.owned p c old in
          (
            (if parent_id == c then append_child node_id n else n),
            ground (arith, get-grown c new there, old_ends p c old),
            ground arith,
          )
      | inr (e, f) ↦ (
        fresh_node,
        ground (arith, get-grown c new there, eq_iff node_id c),
        (unfold new_node in ap some e),
      )
    ]

    grown-deeper :
        (p c : String)
        → (elem c (children_of t.nodes p) ≡ true) ⊎ ((parent_id ≡ p) × (node_id ≡ c))
        → (if node_id == p then w.depth parent_id + 1 else w.depth p)
          < (if node_id == c then w.depth parent_id + 1 else w.depth c)
    grown-deeper p c (inl old) = ground (arith, old_ends p c old, w.deeper p c old)
    grown-deeper p c (inr (e, f)) = ground (arith, eq_iff node_id p, eq_iff node_id c, ap w.depth e)

    fresh-parented :
        (p : String) → fresh_node.parent_id ≡ some p → elem node_id (children_of grown p) ≡ true
    unfolding new_node
    fresh-parented p f = ground (
      arith,
      children_of-grown p new there,
      eq_iff parent_id p,
      elem-append node_id (children_of t.nodes p) (node_id ∷ []),
      eq_refl node_id,
    )

    grown-IsWellFormed : IsWellFormed grown_tree
    grown-IsWellFormed = record {
      keyed =
          grown_cases (λ k n. n.node_id ≡ k) (unfold new_node in refl)
            (λ k n m other o. o.1 ∙ w.keyed k m o.0);
      named = grown_cases (λ k n. truthy k ≡ true) name (λ k n m other o. w.named k m o.0);
      status =
          grown_cases
            (λ k n. get n.status_message_id (set status_id node_id t.status_to_node) ≡ some k)
            (unfold new_node in
              ground
                (arith, get-put status_id status_id node_id t.status_to_node, eq_refl status_id))
            (λ k n m other o. ground (
              arith,
              get-put m.status_message_id status_id node_id t.status_to_node,
              status-ne k m o.0,
              w.status k m o.0,
            ));
      rooted = ground (arith, get-grown t.root_id new there, w.rooted);
      top = λ n e.
          let (m, o) =
            grown-IsOld t.root_id n (ground (arith, w.rooted, eq_iff node_id t.root_id)) e in
          o.3 ∙ w.top m o.0;
      parented = λ k p n e.
          grown_cases
            (λ k n. (p : String) → n.parent_id ≡ some p → elem k (children_of grown p) ≡ true)
            fresh-parented
            (λ k n m other o p f. ground (
              arith,
              w.parented k p m o.0 (sym o.3 ∙ f),
              children_of-grown p new there,
              elem-append k (children_of t.nodes p) (node_id ∷ []),
            ))
            k n e p;
      owned = grown-owned;
      depth = λ x. if node_id == x then w.depth parent_id + 1 else w.depth x;
      bound = suc w.bound;
      bounded =
          λ k m. ground (arith, get-grown k new there, w.bounded parent_id there, w.bounded k);
      deeper = λ p c m. grown-deeper p c (grown-child p c m);
    }

-- `add_node` with a new, non-empty node id and a new status message id under a node of the tree
-- returns the new node, PENDING and with its parent, and the tree is well formed again: the node can
-- be looked up by its id and by its status message.
pub add_node-IsWellFormed :
    (now : ℕ) (node_id : String) (incoming : IncomingMessage) (status_id parent_id : String)
    (t : MessageTree)
    → IsWellFormed t
    → truthy node_id ≡ true
    → has node_id t.nodes ≡ false
    → has status_id t.status_to_node ≡ false
    → has parent_id t.nodes ≡ true
    → (t' : MessageTree) × (add_node now node_id incoming status_id parent_id t
        ≡ ok (t', new_node now node_id incoming status_id (some parent_id)))
      × IsWellFormed t'
      × (get_node t' node_id ≡ some (new_node now node_id incoming status_id (some parent_id)))
      × (find_node_by_status_message t' status_id ≡ get_node t' node_id)
unfolding add_node get_node find_node_by_status_message
add_node-IsWellFormed now node_id incoming status_id parent_id t w name new new_status there = (
  grown_tree now node_id incoming status_id parent_id t,
  ground (arith, eq_iff parent_id node_id),
  grown-IsWellFormed now node_id incoming status_id parent_id t w name new new_status there,
  ground (
    arith,
    get-grown now node_id incoming status_id parent_id t node_id new there,
    eq_refl node_id,
  ),
  ground (arith, get-put_self status_id node_id t.status_to_node),
)

-- With a parent that is not in the tree it raises `ValueError`.
pub add_node-orphan :
    (now : ℕ) (node_id : String) (incoming : IncomingMessage) (status_id parent_id : String)
    (t : MessageTree)
    → has parent_id t.nodes ≡ false
    → add_node now node_id incoming status_id parent_id t ≡ raised value_error
unfolding add_node
add_node-orphan now node_id incoming status_id parent_id t absent = rw absent
