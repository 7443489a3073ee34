-- ===== src/Trees/Manager/Cancel.antt =====
-- TreeQueueManager.cancel_tree (messaging/trees/queue_manager.py) on one tree.
use mathlib.Core.List.{map-append}
use claude_unbound.Prelude.{
  ℕ, String, Bool, true, false, not, ◌≡◌, inl, inr, refl, sym, ap, ◌∙◌, subst, Option, none, some,
  List, [], ◌∷◌, ◌++◌, map, arith, eq_iff, elem, elem-append, Bool-cases, Option-cases, ◌&&◌,
  truthy,
}
use claude_unbound.Prelude.Dict.{Dict, get, has, put as set, get-put, map_values, get-map_values}
use claude_unbound.Trees.Node.{MessageNode, set_node_error_sync, is_terminal}
use claude_unbound.Trees.Tree.{
  MessageTree, present, drain_queue_and_mark_cancelled, cancel_current_task, reset_processing_state,
}
use claude_unbound.Trees.Tree.Drain.{IsDrained, drain_queue-IsDrained}
use claude_unbound.Trees.Manager.{cancel_tree_of, cancel_current_node, clean_node}

abbrev IsKeyed : Dict MessageNode → Type 0
IsKeyed d = (k : String) (n : MessageNode) → get k d ≡ some n → n.node_id ≡ k

abbrev ids : List MessageNode → List String
ids = map (λ n. n.node_id)

-- One phase of the cancellation, from the nodes `d` to `e`, where the nodes of `out` may be written:
-- the terminal ones outside stay, none is lost, and what `ns` lists is terminal.
record Cancels (d e : Dict MessageNode) (out : String → Bool) (ns : List MessageNode) : Type 0 where
  stays :
      (j : String) (m : MessageNode)
      → get j d ≡ some m
      → is_terminal m.state ≡ true
      → out j ≡ false
      → get j e ≡ some m
  lost : (j : String) → has j e ≡ has j d
  keyed : IsKeyed d → IsKeyed e
  listed :
      (j : String) (m : MessageNode)
      → IsKeyed d
      → get j e ≡ some m
      → elem m.node_id (ids ns) ≡ true
      → is_terminal m.state ≡ true

unchanged : (d : Dict MessageNode) (out : String → Bool) → Cancels d d out []
unchanged d out = record {
  stays = λ j m e term o. e;
  lost = λ j. refl;
  keyed = λ k. k;
  listed = λ j m k e h. cc;
}

module _ (now : ℕ) (id : String) (t : MessageTree) (n : MessageNode)
    (there : get id t.nodes ≡ some n) where
  marked_one :
      is_terminal n.state ≡ false
      → Cancels t.nodes
          (set id (set_node_error_sync now "Cancelled by user" n) t.nodes)
          (λ j. false)
          (set_node_error_sync now "Cancelled by user" n ∷ [])
  unfolding set_node_error_sync
  marked_one active = record {
    stays = λ j m e term o.
        ground (
          arith,
          get-put j id (set_node_error_sync now "Cancelled by user" n) t.nodes,
          eq_iff id j,
        );
    lost = λ j.
        ground (
          arith,
          get-put j id (set_node_error_sync now "Cancelled by user" n) t.nodes,
          eq_iff id j,
        );
    keyed = λ k j m e. ground (
      arith,
      get-put j id (set_node_error_sync now "Cancelled by user" n) t.nodes,
      eq_iff id j,
      k id n there,
      k j m,
    );
    listed = λ j m k e h. ground (
      arith,
      get-put j id (set_node_error_sync now "Cancelled by user" n) t.nodes,
      eq_iff id j,
      eq_iff n.node_id m.node_id,
      k id n there,
      k j m,
    );
  }

current-Cancels :
    (now : ℕ) (b : Bool) (c : Option String) (t : MessageTree)
    → let (u, ns) = cancel_current_node now b c t in
      Cancels t.nodes u.nodes (λ j. false) ns × (u.queue ≡ t.queue)
unfolding cancel_current_node
current-Cancels now false c t = (unchanged t.nodes _, refl)
current-Cancels now true none t = (unchanged t.nodes _, refl)
current-Cancels now true (some id) t = elim (Option-cases (get id t.nodes)) [
  | inl e ↦ rw (e, cancel_current_node) (unchanged t.nodes _, refl)
  | inr (n, e) ↦ elim (Bool-cases (truthy id && not (is_terminal n.state))) [
    | inl test ↦
        rw (e, cancel_current_node) (rw test (marked_one now id t n e (ground arith), refl))
    | inr test ↦ rw (e, cancel_current_node) (rw test (unchanged t.nodes _, refl))
  ]
]

module _ (now : ℕ) (msg : String) where
  present_id :
      (x : String) (d : Dict MessageNode) (l : List String)
      → IsKeyed d
      → elem x (ids (map (set_node_error_sync now msg) (present d l))) ≡ true
      → elem x l ≡ true
  unfolding present set_node_error_sync
  present_id x d [] k m = cc
  present_id x d (c ∷ l) k m = elim (Option-cases (get c d)) [
    | inl e ↦ ground (arith, present_id x d l k)
    | inr (n, e) ↦ ground (arith, present_id x d l k, k c n e)
  ]

  drained-Cancels :
      (t u : MessageTree) (ns : List MessageNode)
      → IsDrained now msg t (u, ns)
      → Cancels t.nodes u.nodes (λ j. elem j t.queue.deque) ns
  unfolding set_node_error_sync
  drained-Cancels t u ns (empty, listed, nodes, same) = record {
    stays = λ j m e term o. ground (arith, nodes j);
    lost = λ j. ground (arith, nodes j);
    keyed = λ k j m e. elim (Option-cases (get j t.nodes)) [
      | inl f ↦ absurd (ground (arith, nodes j))
      | inr (n, f) ↦ ground (arith, nodes j, k j n f)
    ];
    listed = λ j m k e h. elim (Option-cases (get j t.nodes)) [
      | inl f ↦ absurd (ground (arith, nodes j))
      | inr (n, f) ↦ ground (
        arith,
        nodes j,
        k j n f,
        present_id j t.nodes t.queue.deque k,
        ap (λ ys. elem j (ids ys)) listed,
      )
    ];
  }

-- What is terminal stays terminal when the queue is drained.
drained-terminal :
    (now : ℕ) (msg : String) (t u : MessageTree) (ns : List MessageNode) (j : String)
    (m n : MessageNode)
    → IsDrained now msg t (u, ns)
    → get j t.nodes ≡ some n
    → is_terminal n.state ≡ true
    → get j u.nodes ≡ some m
    → is_terminal m.state ≡ true
unfolding set_node_error_sync
drained-terminal now msg t u ns j m n (empty, listed, nodes, same) f term e =
    ground (arith, nodes j)

-- What `cancel_tree` leaves of a tree.
pub record IsCancelled (t u : MessageTree) : Type 0 where
  pub free : u.is_processing ≡ false
  pub no_current : u.current_node_id ≡ none
  pub empty : u.queue.deque ≡ []
  -- no node is PENDING or IN_PROGRESS, and none is lost
  pub settled : (j : String) (m : MessageNode) → get j u.nodes ≡ some m → is_terminal m.state ≡ true
  pub lost : (j : String) → has j u.nodes ≡ has j t.nodes
  -- what was COMPLETED or in ERROR, and did not wait, is as before
  pub kept :
      (j : String) (m : MessageNode)
      → get j t.nodes ≡ some m
      → is_terminal m.state ≡ true
      → elem j t.queue.deque ≡ false
      → get j u.nodes ≡ some m

module _ (now : ℕ) (msg : String) (t u v : MessageTree) (ns ms : List MessageNode)
    (keyed : IsKeyed t.nodes) (first : Cancels t.nodes u.nodes (λ j. false) ns)
    (same_queue : u.queue ≡ t.queue) (drained : IsDrained now "Cancelled by user" u (v, ms)) where
  second : Cancels u.nodes v.nodes (λ j. elem j u.queue.deque) ms
  second = drained-Cancels now "Cancelled by user" u v ms drained

  listed-terminal :
      (j : String) (m : MessageNode)
      → get j v.nodes ≡ some m
      → elem m.node_id (ids (ns ++ ms)) ≡ true
      → is_terminal m.state ≡ true
  listed-terminal j m e h = elim (Bool-cases (elem m.node_id (ids ms))) [
    | inl late ↦ second.listed j m (first.keyed keyed) e late
    | inr not_late ↦ elim (Option-cases (get j u.nodes)) [
      | inl f ↦ absurd (ground (arith, second.lost j))
      | inr (n, f) ↦
          drained-terminal now "Cancelled by user" u v ms j m n drained f
            (first.listed j n keyed f (
              subst (λ z. elem z (ids ns) ≡ true)
                (second.keyed (first.keyed keyed) j m e ∙ sym (first.keyed keyed j n f))
                (early not_late h)))
            e
    ]
  ]
    where
      early :
          elem m.node_id (ids ms) ≡ false
          → elem m.node_id (ids (ns ++ ms)) ≡ true
          → elem m.node_id (ids ns) ≡ true
      early no_late all = ground (
        arith,
        ap (elem m.node_id) (map-append (λ (x : MessageNode). x.node_id) ns ms),
        elem-append m.node_id (ids ns) (ids ms),
      )

  abbrev cleaned : MessageTree
  cleaned = record v {
    nodes = map_values (clean_node now msg (ids (ns ++ ms))) v.nodes;
    is_processing = false;
    current_node_id = none;
  }

  cleaned-IsCancelled : IsCancelled t cleaned
  unfolding clean_node
  cleaned-IsCancelled = record {
    free = refl;
    no_current = refl;
    empty = drained.0;
    settled = λ j m e. elim (Option-cases (get j v.nodes)) [
      | inl f ↦
          absurd (ground (arith, get-map_values j (clean_node now msg (ids (ns ++ ms))) v.nodes))
      | inr (n, f) ↦
          unfold set_node_error_sync in
          ground (
            arith,
            get-map_values j (clean_node now msg (ids (ns ++ ms))) v.nodes,
            listed-terminal j n f,
          )
    ];
    lost = λ j. ground (
      arith,
      get-map_values j (clean_node now msg (ids (ns ++ ms))) v.nodes,
      second.lost j,
      first.lost j,
    );
    kept = λ j m e term out.
        let a : get j u.nodes ≡ some m = first.stays j m e term refl in
        let b : get j v.nodes ≡ some m = second.stays j m a term (rw same_queue out) in
        ground (arith, get-map_values j (clean_node now msg (ids (ns ++ ms))) v.nodes);
  }

cancelled_task-same :
    (t : MessageTree)
    → (cancel_current_task t).1 ≡ record t { current_task = (cancel_current_task t).1.current_task }
unfolding cancel_current_task
cancelled_task-same t = ground arith

-- `cancel_tree` on a tree whose nodes stand under their ids: the tree is free, its queue empty and no
-- node is current; no node is PENDING or IN_PROGRESS and none is lost; a node that was COMPLETED or
-- in ERROR, and did not wait in the queue, is unchanged.
pub cancel_tree_of-IsCancelled :
    (now : ℕ) (t : MessageTree)
    → ((k : String) (n : MessageNode) → get k t.nodes ≡ some n → n.node_id ≡ k)
    → IsCancelled t (cancel_tree_of now t).0
unfolding cancel_tree_of reset_processing_state
cancel_tree_of-IsCancelled now t keyed =
    let (running, t₁) = cancel_current_task t in
    let (t₂, current) = cancel_current_node now running t₁.current_node_id t₁ in
    let (t₃, queued) = drain_queue_and_mark_cancelled now "Cancelled by user" t₂ in
    let same : t₁ ≡ record t { current_task = t₁.current_task } = cancelled_task-same t in
    let same_nodes : t₁.nodes ≡ t.nodes = ap (λ v. v.nodes) same in
    let same_queue : t₁.queue ≡ t.queue = ap (λ v. v.queue) same in
    let (first, first_queue) = current-Cancels now running t₁.current_node_id t₁ in
    cleaned-IsCancelled now "Stale task cleaned up" t t₂ t₃ current queued keyed
      (subst (λ d. Cancels d t₂.nodes (λ j. false) current) same_nodes first)
      (first_queue ∙ same_queue) (drain_queue-IsDrained now "Cancelled by user" t₂)
