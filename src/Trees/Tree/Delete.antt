-- ===== src/Trees/Tree/Delete.antt =====
-- The deletion loop of MessageTree.remove_branch (messaging/trees/data.py) on a tree whose status
-- messages lead to their nodes.
use mathlib.Core.List.{map-append}
use claude_unbound.Prelude.{
  String, Bool, true, false, ◌≡◌, inl, inr, refl, ap, ◌∙◌, subst, none, some, List, [], ◌∷◌, ◌++◌,
  map, arith, eq_iff, eq_refl, ==-cases, elem, elem-append, Option-cases, ◌||◌, ◌&&◌, if◌then◌else◌,
}
use claude_unbound.Prelude.Dict.{get, has, erase, get-erase}
use claude_unbound.Trees.Node.{MessageNode}
use claude_unbound.Trees.Tree.{MessageTree, ok, delete_nodes}

abbrev pub ids_of : List MessageNode → List String
ids_of = map (λ n. n.node_id)

-- Of the shape, what the deletion loop needs.
pub record IsIndexed (t : MessageTree) : Type 0 where
  pub keyed : (k : String) (n : MessageNode) → get k t.nodes ≡ some n → n.node_id ≡ k
  pub status :
      (k : String) (n : MessageNode)
      → get k t.nodes ≡ some n
      → get n.status_message_id t.status_to_node ≡ some k

-- The loop over `ids` from `t` with `acc` already removed ends without an error, in `t'`.
pub record Deletes (ids : List String) (acc : List MessageNode) (t t' : MessageTree)
    (removed : List MessageNode) : Type 0 where
  pub run : delete_nodes ids acc t ≡ (t', ok removed)
  pub gone : (j : String) → get j t'.nodes ≡ (if elem j ids then none else get j t.nodes)
  pub kept :
      (s k : String)
      → get s t.status_to_node ≡ some k
      → elem k ids ≡ false
      → get s t'.status_to_node ≡ some k
  pub absent : (s : String) → get s t.status_to_node ≡ none → get s t'.status_to_node ≡ none
  pub freed :
      (k : String) (n : MessageNode)
      → get k t.nodes ≡ some n
      → elem k ids ≡ true
      → get n.status_message_id t'.status_to_node ≡ none
  pub listed :
      (y : String)
      → elem y (ids_of removed) ≡ (elem y (ids_of acc) || (elem y ids && has y t.nodes))
  pub same : t' ≡ record t { nodes = t'.nodes; status_to_node = t'.status_to_node }

module _ (nid : String) (n : MessageNode) (t : MessageTree) (i : IsIndexed t)
    (there : get nid t.nodes ≡ some n) where
  abbrev cut : MessageTree
  cut = record t {
    nodes = erase nid t.nodes;
    status_to_node = erase n.status_message_id t.status_to_node;
  }

  cut-IsIndexed : IsIndexed cut
  cut-IsIndexed = record {
    keyed = λ k m e. i.keyed k m (ground (arith, get-erase k nid t.nodes));
    status = λ k m e. ground (
      arith,
      get-erase k nid t.nodes,
      get-erase m.status_message_id n.status_message_id t.status_to_node,
      eq_iff n.status_message_id m.status_message_id,
      eq_iff nid k,
      i.status k m,
      i.status nid n there,
    );
  }

  module _ (ids : List String) (acc : List MessageNode) where
    delete-there : delete_nodes (nid ∷ ids) acc t ≡ delete_nodes ids (acc ++ n ∷ []) cut
    unfolding delete_nodes
    delete-there = rw (there, delete_nodes) (rw (i.status nid n there, delete_nodes))

    there-Deletes :
        {t' : MessageTree} {removed : List MessageNode}
        → Deletes ids (acc ++ n ∷ []) cut t' removed
        → Deletes (nid ∷ ids) acc t t' removed
    there-Deletes {t'} {removed} d = record {
      run = delete-there ∙ d.run;
      gone = λ j. ground (arith, d.gone j, get-erase j nid t.nodes);
      kept = λ s k e out.
          d.kept s k
            (ground (
              arith,
              get-erase s n.status_message_id t.status_to_node,
              eq_iff n.status_message_id s,
              i.status nid n there,
              eq_iff nid k,
            ))
            (ground arith);
      absent = λ s e. d.absent s (ground (arith, get-erase s n.status_message_id t.status_to_node));
      freed = λ k m e among. elim (==-cases nid k) [
        | inl (one, b) ↦
            subst (λ (x : MessageNode). get x.status_message_id t'.status_to_node ≡ none) {x = n}
              {y = m} (ground (arith, ap (λ x. get x t.nodes) one))
              (d.absent n.status_message_id (
                ground (
                  arith,
                  get-erase n.status_message_id n.status_message_id t.status_to_node,
                  eq_refl n.status_message_id,
                )))
        | inr (two, b) ↦ d.freed k m (ground (arith, get-erase k nid t.nodes)) (ground arith)
      ];
      listed = λ y.
          d.listed y
          ∙ ap (λ (b : Bool). b || elem y ids && has y (erase nid t.nodes))
              (ap (elem y) (map-append (λ (x : MessageNode). x.node_id) acc (n ∷ []))
                ∙ elem-append y (ids_of acc) (n.node_id ∷ []))
          ∙ ground (
            arith,
            get-erase y nid t.nodes,
            i.keyed nid n there,
            eq_iff nid y,
            eq_iff n.node_id y,
          );
      same = d.same;
    }

absent-Deletes :
    (nid : String) (ids : List String) (acc : List MessageNode) (t : MessageTree) {t' : MessageTree}
    {removed : List MessageNode}
    → get nid t.nodes ≡ none
    → Deletes ids acc t t' removed
    → Deletes (nid ∷ ids) acc t t' removed
unfolding delete_nodes
absent-Deletes nid ids acc t e d = record {
  run = rw (e, delete_nodes) d.run;
  gone = λ j. ground (arith, d.gone j, eq_iff nid j);
  kept = λ s k f out. d.kept s k f (ground arith);
  absent = d.absent;
  freed = λ k m f among. d.freed k m f (ground (arith, eq_iff nid k));
  listed = λ y. ground (arith, d.listed y, eq_iff nid y);
  same = d.same;
}

pub deletes :
    (ids : List String) (acc : List MessageNode) (t : MessageTree)
    → IsIndexed t
    → (t' : MessageTree) × (removed : List MessageNode) × Deletes ids acc t t' removed
deletes [] acc t i = (
  t,
  acc,
  record {
    run = unfold delete_nodes in refl;
    gone = λ j. refl;
    kept = λ s k e out. e;
    absent = λ s e. e;
    freed = λ k m e among. cc;
    listed = λ y. ground arith;
    same = refl;
  },
)
deletes (nid ∷ ids) acc t i = elim (Option-cases (get nid t.nodes)) [
  | inl e ↦
      let (t', removed, d) = deletes ids acc t i in (t', removed, absent-Deletes nid ids acc t e d)
  | inr (n, e) ↦
      let (t', removed, d) =
        deletes ids (acc ++ n ∷ []) (cut nid n t i e) (cut-IsIndexed nid n t i e) in
      (t', removed, there-Deletes nid n t i e ids acc d)
]
