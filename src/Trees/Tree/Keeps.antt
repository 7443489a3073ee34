-- ===== src/Trees/Tree/Keeps.antt =====
-- What `update_state` writes; and that it and the queue's operations of MessageTree (messaging/trees/data.py) keep the shape
-- of the tree.
use mathlib.Core.Option
use claude_unbound.Prelude.{
  ℕ, String, Bool, true, false, ◌≡◌, ◌≢◌, ◌⊎◌, refl, sym, ap, ◌∙◌, Option, none, some, arith, ◌==◌,
  eq_iff, eq_refl, truthy, truthy?, elem, Option-cases, inl, inr, if◌then◌else◌,
}
use claude_unbound.Prelude.Dict.{Dict, get}
use claude_unbound.Trees.Node.{MessageState, MessageNode, pending, in_progress, completed, error}
use claude_unbound.Trees.Queue.{SnapshotQueue, put}
use claude_unbound.Trees.Tree.{Task, MessageTree, set_state, update_state, update_node, enqueue}
use claude_unbound.Trees.Tree.Nodes.{get-update_node, has-update_node, update_node-none}
use claude_unbound.Trees.Tree.Walk.{children_of}
use claude_unbound.Trees.Tree.Shape.{IsWellFormed}

module _ (now : ℕ) (node_id : String) (state : MessageState)
    (session_id error_message : Option String) (t : MessageTree) where
  abbrev written : Dict MessageNode
  written = update_node node_id (set_state now state session_id error_message) t.nodes

  changed :
      (k : String)
      → get k written ≡ (
          if node_id == k
          then Option.map (set_state now state session_id error_message) (get k t.nodes)
          else get k t.nodes)
  changed = get-update_node node_id (set_state now state session_id error_message) t.nodes

  -- An entry after the write, against the one before.
  was :
      (k : String) (n : MessageNode)
      → get k written ≡ some n
      → (m : MessageNode) × (get k t.nodes ≡ some m)
        × (n.node_id ≡ m.node_id)
        × (n.status_message_id ≡ m.status_message_id)
        × (n.parent_id ≡ m.parent_id)
  unfolding set_state
  was k n e = elim (Option-cases (get k t.nodes)) [
    | inl f ↦ absurd (ground (arith, changed k))
    | inr (m, f) ↦
        (m, f, ground (arith, changed k), ground (arith, changed k), ground (arith, changed k))
  ]

  children_of-written : (p : String) → children_of written p ≡ children_of t.nodes p
  unfolding set_state
  children_of-written p = ground (arith, changed p)

  written-owned :
      (p c : String)
      → IsWellFormed t
      → elem c (children_of t.nodes p) ≡ true
      → (n : MessageNode) × (get c written ≡ some n) × (n.parent_id ≡ some p)
  unfolding set_state
  written-owned p c w m =
      let (n, g, q) = w.owned p c m in
      (
        (if node_id == c then set_state now state session_id error_message n else n),
        ground (arith, changed c),
        ground arith,
      )

  -- `update_state` of any node, to any state, keeps the tree well formed.
  pub update_state-IsWellFormed :
      IsWellFormed t → IsWellFormed (update_state now node_id state session_id error_message t)
  unfolding update_state
  update_state-IsWellFormed w = record {
    keyed = λ k n e. let (m, f, i, s, p) = was k n e in i ∙ w.keyed k m f;
    named = λ k n e. let (m, f, i, s, p) = was k n e in w.named k m f;
    status = λ k n e.
        let (m, f, i, s, p) = was k n e in ap (λ z. get z t.status_to_node) s ∙ w.status k m f;
    rooted =
        has-update_node node_id (set_state now state session_id error_message) t.nodes t.root_id
        ∙ w.rooted;
    top = λ n e. let (m, f, i, s, p) = was t.root_id n e in p ∙ w.top m f;
    parented = λ k q n e g.
        let (m, f, i, s, p) = was k n e in
        ap (elem k) (children_of-written q) ∙ w.parented k q m f (sym p ∙ g);
    owned = λ p c m. written-owned p c w (sym (ap (elem c) (children_of-written p)) ∙ m);
    depth = w.depth;
    bound = w.bound;
    bounded = λ k m. w.bounded k (
        sym (has-update_node node_id (set_state now state session_id error_message) t.nodes k) ∙ m);
    deeper = λ p c m. w.deeper p c (sym (ap (elem c) (children_of-written p)) ∙ m);
  }

-- What `update_state` makes of a node `n`.
pub record IsWritten (now : ℕ) (state : MessageState) (session_id error_message : Option String)
    (n m : MessageNode) : Type 0 where
  pub moved : m.state ≡ state
  -- an absent or empty text leaves the old one
  pub session_set : (v : String) → session_id ≡ some v → truthy v ≡ true → m.session_id ≡ some v
  pub session_kept : truthy? session_id ≡ false → m.session_id ≡ n.session_id
  pub error_set : (v : String) → error_message ≡ some v → truthy v ≡ true → m.error_message ≡ some v
  pub error_kept : truthy? error_message ≡ false → m.error_message ≡ n.error_message
  -- only a node that is done gets a time of completion
  pub finished : (state ≡ completed) ⊎ (state ≡ error) → m.completed_at ≡ some now
  pub unfinished : (state ≡ pending) ⊎ (state ≡ in_progress) → m.completed_at ≡ n.completed_at
  pub rest : m ≡ record n {
    state = m.state;
    session_id = m.session_id;
    error_message = m.error_message;
    completed_at = m.completed_at;
  }

set_state-IsWritten :
    (now : ℕ) (state : MessageState) (session_id error_message : Option String) (n : MessageNode)
    → IsWritten now state session_id error_message n
        (set_state now state session_id error_message n)
unfolding set_state
set_state-IsWritten now state session_id error_message n = record {
  moved = refl;
  session_set = λ v e b. rw e (rw b refl);
  session_kept = λ b. rw b refl;
  error_set = λ v e b. rw e (rw b refl);
  error_kept = λ b. rw b refl;
  finished = λ d. elim d [ inl e ↦ rw e refl | inr e ↦ rw e refl ];
  unfinished = λ d. elim d [ inl e ↦ rw e refl | inr e ↦ rw e refl ];
  rest = refl;
}

-- The tree after `update_state`, against the one before.
pub record IsUpdated (now : ℕ) (node_id : String) (state : MessageState)
    (session_id error_message : Option String) (t u : MessageTree) : Type 0 where
  pub written :
      (n : MessageNode)
      → get node_id t.nodes ≡ some n
      → (m : MessageNode) × (get node_id u.nodes ≡ some m)
        × IsWritten now state session_id error_message n m
  pub missing : get node_id t.nodes ≡ none → u ≡ t
  pub others : (k : String) → k ≢ node_id → get k u.nodes ≡ get k t.nodes
  pub same : u ≡ record t { nodes = u.nodes }
  pub shape : IsWellFormed u

-- `update_state` on a well-formed tree, of any id and to any state: the node under the id gets the
-- state; its session id and its error message become the given ones where these are not empty, and
-- stay otherwise; its time of completion becomes the clock's reading if the state is COMPLETED or
-- ERROR, and stays otherwise; its other fields, the other nodes and the rest of the tree stay as they
-- are, and the tree stays well formed. Without a node under the id nothing changes.
pub update_state-IsUpdated :
    (now : ℕ) (node_id : String) (state : MessageState) (session_id error_message : Option String)
    (t : MessageTree)
    → IsWellFormed t
    → IsUpdated now node_id state session_id error_message t
        (update_state now node_id state session_id error_message t)
unfolding update_state
update_state-IsUpdated now node_id state session_id error_message t w =
    let f = set_state now state session_id error_message in
    let known = λ (k : String). get-update_node node_id f t.nodes k in
    record {
      written = λ n e. (
        f n,
        known node_id ∙ rw (eq_refl node_id) (ap (Option.map f) e),
        set_state-IsWritten now state session_id error_message n,
      );
      missing = λ e. rw (update_node-none node_id f t.nodes e) refl;
      others = λ k ne. ground (arith, known k, eq_iff node_id k);
      same = refl;
      shape = update_state-IsWellFormed now node_id state session_id error_message t w;
    }

-- The shape does not depend on the queue and the processing state.
pub requeued-IsWellFormed :
    (queue : SnapshotQueue) (is_processing : Bool) (current_node_id : Option String)
    (current_task : Option Task) (t : MessageTree)
    → IsWellFormed t
    → IsWellFormed (record t {
      queue = queue;
      is_processing = is_processing;
      current_node_id = current_node_id;
      current_task = current_task;
    })
requeued-IsWellFormed queue is_processing current_node_id current_task t w = record {
  keyed = w.keyed;
  named = w.named;
  status = w.status;
  rooted = w.rooted;
  top = w.top;
  parented = w.parented;
  owned = w.owned;
  depth = w.depth;
  bound = w.bound;
  bounded = w.bounded;
  deeper = w.deeper;
}

pub enqueue-IsWellFormed :
    (node_id : String) (t : MessageTree) → IsWellFormed t → IsWellFormed (enqueue node_id t).0
unfolding enqueue
enqueue-IsWellFormed node_id t w =
    requeued-IsWellFormed (put t.queue node_id) t.is_processing t.current_node_id t.current_task t w
