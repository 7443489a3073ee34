-- ===== src/Trees/Saved/Tree.antt =====
-- A tree that is saved and loaded (messaging/trees/data.py).
use mathlib.Core.Option
use claude_unbound.Prelude.{
  ℕ, String, true, false, not, ◌≡◌, ◌≢◌, ◌⊎◌, inl, inr, refl, sym, ap, ◌∙◌, subst, Option, none,
  some, List, [], ◌∷◌, map, ◌==◌, eq_iff, eq_refl, ==-cases, truthy, arith, elem, IsDistinct,
  Option-cases, if◌then◌else◌, ◌&&◌,
}
use claude_unbound.Prelude.Dict.{Dict, get, has, put as set, keys, get-put, has-elem}
use claude_unbound.Trees.Json.{Json, loaded, entries-fields, fields, lookup}
use claude_unbound.Trees.Node.{MessageNode}
use claude_unbound.Trees.Tree.{MessageTree, new_tree}
use claude_unbound.Trees.Tree.Shape.{IsWellFormed}
use claude_unbound.Trees.Saved.{
  node_to_dict, add_node_from_dict, add_nodes, tree_to_dict, tree_from_dict,
}
use claude_unbound.Trees.Saved.Node.{kept, node_from_dict-node_to_dict}

-- What a loaded tree is, against the saved one.
pub record IsRestored (clock : String → ℕ) (t u : MessageTree) : Type 0 where
  pub root : u.root_id ≡ t.root_id
  pub nodes : (k : String) → get k u.nodes ≡ Option.map (kept (clock k)) (get k t.nodes)
  pub status :
      (k : String) (n : MessageNode)
      → get k t.nodes ≡ some n
      → get n.status_message_id u.status_to_node ≡ some k
  pub index :
      (s k : String)
      → get s u.status_to_node ≡ some k
      → (n : MessageNode) × (get k t.nodes ≡ some n) × (n.status_message_id ≡ s)
  pub free : u.is_processing ≡ false
  pub waits : u.queue.deque ≡ []

module _ (isoformat : ℕ → String) (fromisoformat : String → Option ℕ)
    (inverse : (t : ℕ) → fromisoformat (isoformat t) ≡ some t)
    (written : (t : ℕ) → truthy (isoformat t) ≡ true) (clock : String → ℕ) (root_id : String) where
  abbrev save : Dict MessageNode → List (String × Json)
  save = map (λ e. (e.0, node_to_dict isoformat fromisoformat e.1))

  record Adds (es : Dict MessageNode) (t u : MessageTree) : Type 0 where
    nodes :
        (j : String)
        → get j u.nodes ≡ (
            if not (j == root_id) && has j es
            then Option.map (kept (clock j)) (get j es)
            else get j t.nodes)
    status :
        (s k : String)
        → (get s t.status_to_node ≡ some k)
          ⊎ ((n : MessageNode) × (get k es ≡ some n) × (n.status_message_id ≡ s) × (k ≢ root_id))
        → ((j : String) (m : MessageNode) → get j es ≡ some m → m.status_message_id ≡ s → j ≡ k)
        → get s u.status_to_node ≡ some k
    only :
        (s k : String)
        → get s u.status_to_node ≡ some k
        → (get s t.status_to_node ≡ some k)
          ⊎ ((n : MessageNode) × (get k es ≡ some n) × (n.status_message_id ≡ s))
    rest : u ≡ record t { nodes = u.nodes; status_to_node = u.status_to_node }

  abbrev AreKeyed : Dict MessageNode → Type 0
  AreKeyed es = (k : String) (n : MessageNode) → get k es ≡ some n → n.node_id ≡ k

  tail_get :
      (k : String) (n : MessageNode) (es : Dict MessageNode) (j : String) (m : MessageNode)
      → elem k (keys es) ≡ false
      → get j es ≡ some m
      → get j ((k, n) ∷ es) ≡ some m
  unfolding get
  tail_get k n es j m new e = ground (arith, has-elem j es, eq_iff k j)

  module _ (k : String) (n : MessageNode) (es : Dict MessageNode) (t u : MessageTree)
      (new : elem k (keys es) ≡ false) where
    other_get :
        (j : String) (m : MessageNode) → k ≢ j → get j ((k, n) ∷ es) ≡ some m → get j es ≡ some m
    unfolding get
    other_get j m ne e = ground (arith, eq_iff k j)

    moved :
        (j : String) (m : MessageNode)
        → k ≡ j
        → get j ((k, n) ∷ es) ≡ some m
        → n.status_message_id ≡ m.status_message_id
    unfolding get
    moved j m same e = ground (arith, eq_iff k j)

    skips-Adds : k ≡ root_id → Adds es t u → Adds ((k, n) ∷ es) t u
    unfolding get
    skips-Adds at_root a = record {
      nodes = λ j. ground (arith, a.nodes j, eq_iff k j, eq_iff j root_id, eq_iff k root_id);
      status = λ s c known unique.
          let unique' = λ (j : String) (m : MessageNode) (g : get j es ≡ some m).
            unique j m (tail_get k n es j m new g) in
          elim known [
            | inl there ↦ a.status s c (inl there) unique'
            | inr (m, g, e, ne) ↦
                a.status s c (inr (m, other_get c m (λ same. ne (sym same ∙ at_root)) g, e, ne))
                  unique'
          ];
      only = λ s c g. elim (a.only s c g) [
        | inl there ↦ inl there
        | inr (m, h, e) ↦ inr (m, tail_get k n es c m new h, e)
      ];
      rest = a.rest;
    }

    -- A status message found after the write of `n` is that of `n`, or was found before.
    own_status :
        (s c : String)
        → n.node_id ≡ k
        → get s (set n.status_message_id n.node_id t.status_to_node) ≡ some c
        → (get s t.status_to_node ≡ some c)
          ⊎ ((m : MessageNode) × (get c ((k, n) ∷ es) ≡ some m) × (m.status_message_id ≡ s))
    unfolding get
    own_status s c id g = elim (==-cases n.status_message_id s) [
      | inl (e, b) ↦
          let found : some n.node_id ≡ some c =
            sym (get-put s n.status_message_id n.node_id t.status_to_node ∙ rw b refl) ∙ g in
          inr (n, ground (arith, found, id, eq_iff k c), e)
      | inr (ne, b) ↦
          inl (sym (get-put s n.status_message_id n.node_id t.status_to_node ∙ rw b refl) ∙ g)
    ]

    Adds-Adds :
        k ≢ root_id
        → n.node_id ≡ k
        → Adds es (add_node_from_dict isoformat fromisoformat (kept (clock k) n) t) u
        → Adds ((k, n) ∷ es) t u
    unfolding get add_node_from_dict
    Adds-Adds inner id a = record {
      nodes = λ j. ground (
        arith,
        a.nodes j,
        eq_iff k j,
        eq_iff j root_id,
        eq_iff k root_id,
        get-put j n.node_id (kept (clock k) n) t.nodes,
        has-elem j es,
      );
      status = λ s c known unique.
          let unique' = λ (j : String) (m : MessageNode) (g : get j es ≡ some m).
            unique j m (tail_get k n es j m new g) in
          let written_now = get-put s n.status_message_id n.node_id t.status_to_node in
          elim (==-cases n.status_message_id s) [
            | inl (e, b) ↦
                a.status s c
                  (inl
                    (written_now ∙ rw b (ap some (id ∙ unique k n (ground (arith, eq_refl k)) e))))
                  unique'
            | inr (ne, b) ↦ elim known [
              | inl there ↦ a.status s c (inl (written_now ∙ rw b there)) unique'
              | inr (m, g, e, inn) ↦
                  a.status s c
                    (inr (m, other_get c m (λ same. ne (moved c m same g ∙ e)) g, e, inn)) unique'
            ]
          ];
      only = λ s c g. elim (a.only s c g) [
        | inl there ↦ own_status s c id there
        | inr (m, h, e) ↦ inr (m, tail_get k n es c m new h, e)
      ];
      rest = a.rest;
    }

  nothing-Adds : (t : MessageTree) → Adds [] t t
  unfolding get
  nothing-Adds t = record {
    nodes = λ j. ground arith;
    status = λ s c known unique. elim known [
      | inl there ↦ there
      | inr (m, g, e, ne) ↦ absurd (missing m g)
    ];
    only = λ s c g. inl g;
    rest = refl;
  }
    where
      missing : (m : MessageNode) → none ≡ some m → ⊥
      missing m g = cc

  first_get : (k : String) (n : MessageNode) (es : Dict MessageNode) → get k ((k, n) ∷ es) ≡ some n
  unfolding get
  first_get k n es = rw (eq_refl k) refl

  add_nodes-Adds :
      (es : Dict MessageNode) (t : MessageTree)
      → IsDistinct (keys es)
      → AreKeyed es
      → (u : MessageTree) × (add_nodes isoformat fromisoformat clock root_id (save es) t ≡ loaded u)
        × Adds es t u
  unfolding add_nodes
  add_nodes-Adds [] t d keyed = (t, refl, nothing-Adds t)
  add_nodes-Adds ((k, n) ∷ es) t d keyed = elim (==-cases k root_id) [
    | inl (e, b) ↦
        let (u, run, a) =
          add_nodes-Adds es t d.1 (λ j m g. keyed j m (tail_get k n es j m d.0 g)) in
        (u, rw b run, skips-Adds k n es t u d.0 e a)
    | inr (ne, b) ↦
        let t' = add_node_from_dict isoformat fromisoformat (kept (clock k) n) t in
        let (u, run, a) =
          add_nodes-Adds es t' d.1 (λ j m g. keyed j m (tail_get k n es j m d.0 g)) in
        (
          u,
          rw (b, node_from_dict-node_to_dict isoformat fromisoformat inverse written (clock k) n)
              run,
          Adds-Adds k n es t u d.0 ne (keyed k n (first_get k n es)) a,
        )
  ]

module _ (isoformat : ℕ → String) (fromisoformat : String → Option ℕ)
    (inverse : (t : ℕ) → fromisoformat (isoformat t) ≡ some t)
    (written : (t : ℕ) → truthy (isoformat t) ≡ true) (clock : String → ℕ) where
  lookup-save :
      (k : String) (es : Dict MessageNode)
      → lookup k (fields (save isoformat fromisoformat inverse written clock k es))
        ≡ Option.map (node_to_dict isoformat fromisoformat) (get k es)
  unfolding get
  lookup-save k [] = refl
  lookup-save k ((j, n) ∷ es) = ground (arith, lookup-save k es)

  module _ (t : MessageTree) (w : IsWellFormed t) (root : MessageNode)
      (e : get t.root_id t.nodes ≡ some root) where
    start_nodes :
        (k : String)
        → get k (new_tree (kept (clock t.root_id) root)).nodes
          ≡ (if t.root_id == k then some (kept (clock t.root_id) root) else none)
    unfolding new_tree get
    start_nodes k = rw (w.keyed t.root_id root e) refl

    start_status :
        get root.status_message_id (new_tree (kept (clock t.root_id) root)).status_to_node
        ≡ some t.root_id
    unfolding new_tree get
    start_status = rw (eq_refl root.status_message_id) (ap some (w.keyed t.root_id root e))

    first_status :
        (s k : String)
        → get s (new_tree (kept (clock t.root_id) root)).status_to_node ≡ some k
        → (k ≡ t.root_id) × (root.status_message_id ≡ s)
    unfolding new_tree get
    first_status s k g =
        (ground (arith, w.keyed t.root_id root e), ground (arith, eq_iff root.status_message_id s))

    unique_status :
        (j k : String) (m n : MessageNode)
        → get j t.nodes ≡ some m
        → get k t.nodes ≡ some n
        → m.status_message_id ≡ n.status_message_id
        → j ≡ k
    unique_status j k m n g h same = cc (w.status j m g, w.status k n h)

    restored :
        (u : MessageTree)
        → Adds isoformat fromisoformat inverse written clock t.root_id t.nodes
            (new_tree (kept (clock t.root_id) root))
            u
        → IsRestored clock t u
    unfolding new_tree
    restored u a = record {
      root = ap (λ v. v.root_id) a.rest ∙ w.keyed t.root_id root e;
      nodes = λ k. elim (==-cases k t.root_id) [
        | inl (same, b) ↦
            subst (λ j. get j u.nodes ≡ Option.map (kept (clock j)) (get j t.nodes)) (sym same)
              (ground (arith, a.nodes t.root_id, start_nodes t.root_id, eq_refl t.root_id))
        | inr (other, b) ↦ ground (arith, a.nodes k, start_nodes k, eq_iff t.root_id k)
      ];
      status = λ k n g.
          a.status n.status_message_id k
            (elim (==-cases k t.root_id) [
              | inl (same, b) ↦ inl (at_root k n g same)
              | inr (other, b) ↦ inr (n, g, refl, other)
            ])
            (λ j m h same. unique_status j k m n h g same);
      index = λ s k g. elim (a.only s k g) [
        | inl there ↦
            let (at_root, named) = first_status s k there in
            (root, ap (λ j. get j t.nodes) at_root ∙ e, named)
        | inr found ↦ found
      ];
      free = ap (λ v. v.is_processing) a.rest;
      waits = ap (λ v. v.queue.deque) a.rest;
    }
      where
        at_root :
            (k : String) (n : MessageNode)
            → get k t.nodes ≡ some n
            → k ≡ t.root_id
            → get n.status_message_id (new_tree (kept (clock t.root_id) root)).status_to_node
              ≡ some k
        at_root k n g same = cc (start_status, e)

  -- A well-formed tree, the keys of whose dictionary are distinct, comes back from `from_dict` of its
  -- `to_dict`, as a free tree with an empty queue: under its root id, with its nodes under their keys,
  -- up to what is not saved of an incoming message and the context, with every status message leading
  -- to its node, and no other entry in the index of status messages. `isoformat` gives a text that is
  -- not empty, and `fromisoformat` inverts it.
  pub tree-round_trip :
      (t : MessageTree)
      → IsWellFormed t
      → IsDistinct (keys t.nodes)
      → (u : MessageTree) × (tree_from_dict isoformat fromisoformat clock
            (tree_to_dict isoformat fromisoformat t)
          ≡ loaded u)
        × IsRestored clock t u
  unfolding tree_from_dict tree_to_dict
  tree-round_trip t w d = elim (Option-cases (get t.root_id t.nodes)) [
    | inl e ↦ absurd (ground (arith, w.rooted))
    | inr (root, e) ↦
        let start = new_tree (kept (clock t.root_id) root) in
        let (u, run, a) =
          add_nodes-Adds isoformat fromisoformat inverse written clock t.root_id t.nodes start d
            w.keyed in
        (
          u,
          simp
              (
                lookup-save,
                e,
                node_from_dict-node_to_dict isoformat fromisoformat inverse written,
                entries-fields,
              )
              run,
          restored t w root e u a,
        )
  ]
