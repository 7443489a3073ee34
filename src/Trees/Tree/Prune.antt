-- ===== src/Trees/Tree/Prune.antt =====
-- A well-formed MessageTree (messaging/trees/data.py) without the nodes at and below one of them.
use mathlib.Core.Option
use claude_unbound.Prelude.{
  String, true, false, ◌≡◌, ◌≢◌, ◌↔◌, inl, inr, refl, sym, ap, ◌∙◌, subst, none, some, List, [],
  arith, eq_iff, ==-cases, elem, Bool-cases, Option-cases, without, without-absent, elem-without,
  if◌then◌else◌,
}
use claude_unbound.Prelude.Dict.{Dict, get, has}
use claude_unbound.Trees.Node.{MessageNode}
use claude_unbound.Trees.Tree.{MessageTree, unlink, get_parent, parent_key, update_node, drop_child}
use claude_unbound.Trees.Tree.Nodes.{get-update_node}
use claude_unbound.Trees.Tree.Walk.{children_of, IsBelow, here, child, IsBelow-cases}
use claude_unbound.Trees.Tree.Shape.{IsWellFormed}

-- The nodes at and below `x`, in a well-formed tree where `x` is not the root.
module _ (x : String) (t : MessageTree) (w : IsWellFormed t) (there : has x t.nodes ≡ true)
    (inner : x ≢ t.root_id) (ids : List String)
    (listed : (y : String) → (elem y ids ≡ true) ↔ IsBelow t.nodes x y) where
  out_of : {y : String} → (IsBelow t.nodes x y → ⊥) → elem y ids ≡ false
  out_of {y} no_path = elim (Bool-cases (elem y ids)) [
    | inr e ↦ e
    | inl e ↦ absurd (no_path ((listed y).0 e))
  ]

  pub root-out : elem t.root_id ids ≡ false
  root-out = out_of λ b. elim (IsBelow-cases b) [
    | inl e ↦ inner e
    | inr (p, _, m) ↦ let (n, e, q) = w.owned p t.root_id m in cc (w.top n e)
  ]

  -- Below a listed node all is listed; above a child that is not listed nothing is.
  parent-out :
      (p c : String)
      → elem c (children_of t.nodes p) ≡ true
      → elem c ids ≡ false
      → elem p ids ≡ false
  parent-out p c m out = out_of λ b. cc ((listed c).1 (child b m))

  pub x-in : elem x ids ≡ true
  x-in = (listed x).1 here

  child-out :
      (p c : String)
      → elem c (children_of t.nodes p) ≡ true
      → elem p ids ≡ false
      → x ≢ c
      → elem c ids ≡ false
  child-out p c m out other = out_of λ b. elim (IsBelow-cases b) [
    | inl e ↦ other e
    | inr (q, above, m') ↦
        let (n, e, f) = w.owned p c m in
        let (n', e', f') = w.owned q c m' in cc ((listed q).1 above)
  ]

  pub has-listed : (y : String) → elem y ids ≡ true → has y t.nodes ≡ true
  has-listed y m = elim (IsBelow-cases ((listed y).0 m)) [
    | inl e ↦ subst (λ z. has z t.nodes ≡ true) e there
    | inr (p, _, m') ↦ let (n, e, _) = w.owned p y m' in rw e
  ]

  -- A tree with the other nodes, each without `x` among its children.
  module _ (u : MessageTree) (same_root : u.root_id ≡ t.root_id)
      (left : (j : String)
        → get j u.nodes ≡ (if elem j ids then none else Option.map (drop_child x) (get j t.nodes)))
      (kept : (s k : String)
        → get s t.status_to_node ≡ some k
        → elem k ids ≡ false
        → get s u.status_to_node ≡ some k) where
    children-left :
        (j : String)
        → children_of u.nodes j ≡ (if elem j ids then [] else without x (children_of t.nodes j))
    children-left j = elim (Option-cases (get j t.nodes)) [
      | inl e ↦ ground (arith, left j)
      | inr (n, e) ↦ ground (arith, left j, without-absent x n.children_ids)
    ]

    abbrev IsLeft : String → MessageNode → MessageNode → Type 0
    IsLeft k n m =
        (elem k ids ≡ false)
        × (get k t.nodes ≡ some m)
        × (n.node_id ≡ m.node_id)
        × (n.status_message_id ≡ m.status_message_id)
        × (n.parent_id ≡ m.parent_id)

    IsLeft-entry :
        (k : String) (n : MessageNode) → get k u.nodes ≡ some n → (m : MessageNode) × IsLeft k n m
    IsLeft-entry k n e = elim (Option-cases (get k t.nodes)) [
      | inl f ↦ absurd (ground (arith, left k))
      | inr (m, f) ↦ (m, ground (arith, left k))
    ]

    left-child :
        (p c : String)
        → elem c (children_of u.nodes p) ≡ true
        → (elem p ids ≡ false) × (elem c (children_of t.nodes p) ≡ true) × (x ≢ c)
    left-child p c m = elim (==-cases x c) [
      | inl (e, b) ↦
          absurd (ground (arith, children-left p, elem-without c x (children_of t.nodes p)))
      | inr (other, b) ↦ (
        ground (arith, children-left p),
        ground (arith, children-left p, elem-without c x (children_of t.nodes p)),
        other,
      )
    ]

    pub left-IsWellFormed : IsWellFormed u
    left-IsWellFormed = record {
      keyed = λ k n e. let (m, l) = IsLeft-entry k n e in l.2 ∙ w.keyed k m l.1;
      named = λ k n e. let (m, l) = IsLeft-entry k n e in w.named k m l.1;
      status = λ k n e.
          let (m, l) = IsLeft-entry k n e in
          ap (λ s. get s u.status_to_node) l.3 ∙ kept m.status_message_id k (w.status k m l.1) l.0;
      rooted = rw same_root (ground (arith, left t.root_id, root-out, w.rooted));
      top = λ n e.
          let (m, l) = IsLeft-entry t.root_id n (ap (λ r. get r u.nodes) (sym same_root) ∙ e) in
          l.4 ∙ w.top m l.1;
      parented = λ k p n e f.
          let (m, l) = IsLeft-entry k n e in
          let q : elem k (children_of t.nodes p) ≡ true = w.parented k p m l.1 (sym l.4 ∙ f) in
          ground (
            arith,
            children-left p,
            parent-out p k q l.0,
            elem-without k x (children_of t.nodes p),
            x-in,
            eq_iff x k,
          );
      owned = λ p c m.
          let (out, m', other) = left-child p c m in
          let (n, e, q) = w.owned p c m' in
          (drop_child x n, ground (arith, left c, child-out p c m' out other), ground arith);
      depth = w.depth;
      bound = w.bound;
      bounded = λ k m. w.bounded k (ground (arith, left k));
      deeper = λ p c m. w.deeper p c (left-child p c m).1;
    }

  abbrev pub Left : Dict MessageNode → Type 0
  Left d' =
      (j : String)
      → get j d' ≡ (if elem j ids then none else Option.map (drop_child x) (get j t.nodes))

  -- The nodes after the deletion and the parent's new list of children.
  module _ (d : Dict MessageNode)
      (gone : (j : String) → get j d ≡ (if elem j ids then none else get j t.nodes)) where
    -- Only the parent has `x` among its children.
    sole_parent :
        (p j : String) (n m : MessageNode)
        → get x t.nodes ≡ some n
        → n.parent_id ≡ some p
        → get j t.nodes ≡ some m
        → p ≢ j
        → elem x m.children_ids ≡ false
    sole_parent p j n m e q f other = elim (Bool-cases (elem x m.children_ids)) [
      | inr out ↦ out
      | inl has_x ↦ let (n', e', q') = w.owned j x (rw f has_x) in absurd (other (cc))
    ]

    orphan-Left : (n : MessageNode) → get x t.nodes ≡ some n → n.parent_id ≡ none → Left d
    orphan-Left n e q j = elim (Option-cases (get j t.nodes)) [
      | inl f ↦ ground (arith, gone j)
      | inr (m, f) ↦ elim (Bool-cases (elem x m.children_ids)) [
        | inr out ↦ ground (arith, gone j)
        | inl has_x ↦ let (n', e', q') = w.owned j x (rw f has_x) in absurd (cc)
      ]
    ]

    child-Left :
        (n : MessageNode) (p : String)
        → get x t.nodes ≡ some n
        → n.parent_id ≡ some p
        → Left (update_node p (drop_child x) d)
    child-Left n p e q j = elim (Option-cases (get j t.nodes)) [
      | inl f ↦ ground (arith, gone j, get-update_node p (drop_child x) d j)
      | inr (m, f) ↦ elim (==-cases p j) [
        | inl (one, b) ↦ ground (arith, gone j, get-update_node p (drop_child x) d j)
        | inr (two, b) ↦
            ground
              (arith, gone j, get-update_node p (drop_child x) d j, sole_parent p j n m e q f two)
      ]
    ]

  parent-found :
      (n : MessageNode) (p : String)
      → get x t.nodes ≡ some n
      → n.parent_id ≡ some p
      → (m : MessageNode) × (get_parent t x ≡ some m)
  unfolding get_parent
  parent-found n p e q = elim (Option-cases (get p t.nodes)) [
    | inl f ↦ absurd (ground (arith, w.parented x p n e q))
    | inr (m, f) ↦ (m, ground (arith, w.named p m f))
  ]

  unlink-parent :
      (t' : MessageTree) (n : MessageNode) (p : String)
      → get x t.nodes ≡ some n
      → n.parent_id ≡ some p
      → unlink (get_parent t x) (parent_key (get x t.nodes)) x t'
        ≡ record t' { nodes = update_node p (drop_child x) t'.nodes }
  unfolding unlink
  unlink-parent t' n p e q = let (m, found) = parent-found n p e q in rw (found, e) (rw q)

  -- The last write of `remove_branch`, whether `x` has a parent or not.
  pub unlink-Left :
      (t' : MessageTree)
      → ((j : String) → get j t'.nodes ≡ (if elem j ids then none else get j t.nodes))
      → (u : MessageTree) × (unlink (get_parent t x) (parent_key (get x t.nodes)) x t' ≡ u)
        × (u ≡ record t' { nodes = u.nodes })
        × Left u.nodes
  unlink-Left t' gone = elim (Option-cases (get x t.nodes)) [
    | inl e ↦ absurd (ground arith)
    | inr (n, e) ↦ elim (Option-cases n.parent_id) [
      | inl q ↦
          (t', (unfold unlink get_parent in ground arith), refl, orphan-Left t'.nodes gone n e q)
      | inr (p, q) ↦ (
        record t' { nodes = update_node p (drop_child x) t'.nodes },
        unlink-parent t' n p e q,
        refl,
        child-Left t'.nodes gone n p e q,
      )
    ]
  ]
