-- ===== src/Trees/Manager/Races.antt =====
-- Interleavings of messaging/trees/queue_manager.py that break what the processor keeps otherwise: a
-- branch removed while one of its nodes waits, and a node submitted while a cancelled task is still
-- ending.
use claude_unbound.Prelude.{
  ℕ, ◌+◌, ◌≤◌, append-nil, append_assoc, elem_head, String, true, false, ◌≡◌, ◌≢◌, refl, sym, ap,
  ap₂, ◌∙◌, subst, none, some, List, [], ◌∷◌, ◌++◌, arith, elem, truthy, Option-cases, inl, inr,
}
use claude_unbound.Prelude.Dict.{get, has}
use claude_unbound.Trees.Node.{MessageNode, is_terminal, error}
use claude_unbound.Trees.Queue.{get_nowait}
use claude_unbound.Trees.Tree.{
  MessageTree, ok, remove_branch, clear_current_node, update_state, set_state,
}
use claude_unbound.Trees.Tree.Nodes.{has-update_node}
use claude_unbound.Trees.Tree.Walk.{IsBelow, get_descendants-IsBelow}
use claude_unbound.Trees.Tree.Shape.{IsWellFormed, height, height-HasHeight}
use claude_unbound.Trees.Tree.Branch.{IsPruned, remove_branch-IsPruned}
use claude_unbound.Trees.Processor.{
  Callbacks, Outcome, returned, cancelled, failed, process_next, process_ended, enqueue_and_start,
}
use claude_unbound.Trees.Processor.Loop.{
  Job, Loop, Step, Reach, finish, after_process, after_submit, waiting_job, begun_job, ending_job,
  active, spawned, spawned_ids,
}
use claude_unbound.Trees.Processor.Invariant.{IsSerial, active-append, continues, launched, queued}
use claude_unbound.Trees.Processor.Serial.{
  quiet, running, unstarted, unstarted-IsSerial, Reach-IsSerial,
}
use claude_unbound.Trees.Manager.{cancel_tree_of, cancel_each, cancel_branch_node, cancel_branch_of}
use claude_unbound.Trees.Manager.Cancel.{IsCancelled, cancel_tree_of-IsCancelled}

-- `_process_next` takes a node that is no longer in the tree: it marks the tree busy, without a task.
dangling :
    (c : Callbacks) (t : MessageTree) (x : String) (rest : List String)
    → t.queue.deque ≡ x ∷ rest
    → truthy x ≡ true
    → has x t.nodes ≡ false
    → let (u, es) = process_next c t in
      (spawned es ≡ []) × (spawned_ids es ≡ []) × (u.is_processing ≡ true) × (u.queue.deque ≡ rest)
unfolding process_next get_nowait
dangling c t x rest e name gone = ground arith

-- A cancelled task that ends on an empty queue marks the tree free.
ended_free :
    (c : Callbacks) (now : ℕ) (x : String) (t : MessageTree)
    → t.queue.deque ≡ []
    → let (u, es) = process_ended c now x cancelled t in
      (spawned es ≡ []) × (u.is_processing ≡ false) × (u.nodes ≡ t.nodes)
unfolding process_ended
ended_free c now x t e =
    let k = continues c (clear_current_node t) in let f = k.free e in (f.2, f.0, k.nodes)

-- A branch of terminal nodes is left as it is by `cancel_branch`.
terminal_kept :
    (now : ℕ) (t : MessageTree) (ids : List String) (acc : List MessageNode)
    → ((y : String) (n : MessageNode)
        → elem y ids ≡ true
        → get y t.nodes ≡ some n
        → is_terminal n.state ≡ true)
    → cancel_each now ids t acc ≡ (t, acc)
unfolding cancel_each
terminal_kept now t [] acc h = refl
terminal_kept now t (x ∷ ids) acc h = elim (Option-cases (get x t.nodes)) [
  | inl e ↦
      rw (e, cancel_branch_node)
        (rw (append-nil acc) (terminal_kept now t ids acc (λ y n m f. h y n (ground arith) f)))
  | inr (n, e) ↦
      rw (e, cancel_branch_node)
        (rw (h x n (elem_head x ids) e)
          (rw (append-nil acc) (terminal_kept now t ids acc (λ y n m f. h y n (ground arith) f))))
]

-- A branch of terminal nodes is removed, and leaves the queue as it is.
terminal_removed :
    (now : ℕ) (order : List String → List String) (t : MessageTree) (x : String)
    → IsWellFormed t
    → has x t.nodes ≡ true
    → x ≢ t.root_id
    → ((l : List String) (z : String) → elem z (order l) ≡ elem z l)
    → ((z : String) (n : MessageNode)
        → IsBelow t.nodes x z
        → get z t.nodes ≡ some n
        → is_terminal n.state ≡ true)
    → (enough : ℕ) × (u : MessageTree) × (removed : List MessageNode) × ((fuel : ℕ)
        → enough ≤ fuel
        → (cancel_branch_of fuel now order x t ≡ some (t, []))
          × (remove_branch fuel x t ≡ some (u, ok removed)))
      × IsPruned x t u removed
unfolding cancel_branch_of
terminal_removed now order t x w there inner same_items done =
    let (enough, ids, walks, listed) =
      get_descendants-IsBelow t (height t w) x (height-HasHeight t w) there in
    let (enough', u, removed, run, p) = remove_branch-IsPruned t x w there inner in
    (
      enough + enough',
      u,
      removed,
      (λ fuel le. (
        rw (walks fuel (omega arith), cancel_branch_of)
            (ap some (
              terminal_kept now t (order ids) []
                (λ z n m f. done z n ((listed z).0 (sym (same_items ids z) ∙ m)) f))),
        run fuel (omega arith),
      )),
      p,
    )

-- On a well-formed tree, let every node at and below `x`, which is not the root, be COMPLETED or in
-- ERROR, and let one of them, `y`, still wait in the queue. Then `cancel_branch` of `x` changes nothing, and `remove_branch` of `x`, which ends
-- without an error, leaves `y` waiting in the queue of a tree that has no `y`.
pub removed_still_waits :
    (now : ℕ) (order : List String → List String) (t : MessageTree) (x y : String)
    → IsWellFormed t
    → has x t.nodes ≡ true
    → x ≢ t.root_id
    → ((l : List String) (z : String) → elem z (order l) ≡ elem z l)
    → ((z : String) (n : MessageNode)
        → IsBelow t.nodes x z
        → get z t.nodes ≡ some n
        → is_terminal n.state ≡ true)
    → IsBelow t.nodes x y
    → elem y t.queue.deque ≡ true
    → (enough : ℕ) × (u : MessageTree) × (removed : List MessageNode) × ((fuel : ℕ)
        → enough ≤ fuel
        → (cancel_branch_of fuel now order x t ≡ some (t, []))
          × (remove_branch fuel x t ≡ some (u, ok removed)))
      × (elem y u.queue.deque ≡ true)
      × (has y u.nodes ≡ false)
removed_still_waits now order t x y w there inner same_items done below waits =
    let (enough, u, removed, run, p) =
      terminal_removed now order t x w there inner same_items done in
    (
      enough,
      u,
      removed,
      run,
      ap (λ v. elem y v.queue.deque) p.same ∙ waits,
      ground (arith, p.gone y below),
    )

dangling_ended :
    (c : Callbacks) (now : ℕ) (k : String) (o : Outcome) (t : MessageTree) (x : String)
    (rest : List String)
    → t.queue.deque ≡ x ∷ rest
    → truthy x ≡ true
    → has x t.nodes ≡ false
    → let (u, es) = process_ended c now k o t in
      (spawned es ≡ []) × (spawned_ids es ≡ []) × (u.is_processing ≡ true) × (u.queue.deque ≡ rest)
unfolding process_ended
dangling_ended c now k returned t x rest e name gone =
    dangling c (clear_current_node t) x rest e name gone
dangling_ended c now k cancelled t x rest e name gone =
    dangling c (clear_current_node t) x rest e name gone
dangling_ended c now k (failed msg) t x rest e name gone =
    dangling c (clear_current_node (update_state now k error none (some msg) t)) x rest e name
      (has-update_node k (set_state now error none (some msg)) t.nodes x ∙ gone)

-- Submissions one after the other.
unfoldable pub submit_all : List String → Loop → Loop
submit_all [] l = l
submit_all (y ∷ ys) l = submit_all ys (after_submit l y (enqueue_and_start y l.tree))

-- No task is active, the tree is busy, and `q` waits.
pub record IsStuck (started q : List String) (l : Loop) : Type 0 where
  pub idle : active l.jobs ≡ []
  pub busy : l.tree.is_processing ≡ true
  pub waits : l.tree.queue.deque ≡ q
  pub begun : l.started ≡ started

submit-IsStuck :
    (started q : List String) (y : String) (l : Loop)
    → IsStuck started q l
    → IsStuck started (q ++ y ∷ []) (after_submit l y (enqueue_and_start y l.tree))
unfolding after_submit
submit-IsStuck started q y l s =
    let k = queued y l.tree s.busy in
    record {
      idle = ap active (ap (λ z. l.jobs ++ z) k.3 ∙ append-nil l.jobs) ∙ s.idle;
      busy = k.0;
      waits = k.1 ∙ ap (λ z. z ++ y ∷ []) s.waits;
      begun = ap (λ z. l.started ++ z) k.4 ∙ append-nil l.started ∙ s.begun;
    }

submit_all-IsStuck :
    (started q ys : List String) (l : Loop)
    → IsStuck started q l
    → IsStuck started (q ++ ys) (submit_all ys l)
unfolding submit_all
submit_all-IsStuck started q [] l s = subst (λ z. IsStuck started z l) (sym (append-nil q)) s
submit_all-IsStuck started q (y ∷ ys) l s =
    let l₁ = after_submit l y (enqueue_and_start y l.tree) in
    subst (λ z. IsStuck started z (submit_all ys l₁)) (append_assoc q (y ∷ []) ys)
      (submit_all-IsStuck started (q ++ y ∷ []) ys l₁ (submit-IsStuck started q y l s))

-- `cancel_tree` asks the current task to cancel; a task is there until its handlers have run.
abbrev pub after_cancel : ℕ → Loop → Loop
after_cancel now l = record l { tree = (cancel_tree_of now l.tree).0 }

-- A node is submitted.
abbrev pub after_node : String → Loop → Loop
after_node y l = after_submit l y (enqueue_and_start y l.tree)

-- The task of `k`, which has called the processor, ends as a cancelled one.
abbrev pub after_end : Callbacks → ℕ → String → List Job → List Job → Loop → Loop
after_end c now k before after l =
    after_process l (before ++ ending_job k ∷ after) (process_ended c now k cancelled l.tree)

-- A loop reached from a free tree with an empty queue, in which the task of `k` has called the
-- processor.
module _ (c : Callbacks) (t₀ : MessageTree) (l : Loop) (off : t₀.is_processing ≡ false)
    (empty : t₀.queue.deque ≡ []) (reached : Reach c (unstarted t₀) l) (k : String)
    (before after : List Job) (e : l.jobs ≡ before ++ begun_job k ∷ after) where
  serial : IsSerial l
  serial = Reach-IsSerial c (unstarted t₀) l (unstarted-IsSerial t₀ off empty) reached

  -- Let every node at and below `x`, which is not the root, be COMPLETED or in ERROR, and let one of
  -- them, `y`, be the first in the queue of a well-formed tree. Then `cancel_branch` of `x` changes
  -- nothing and `remove_branch` of `x` ends without an error; and once the running task has ended, in
  -- whatever way, no task is active and the tree stays busy: whatever nodes are submitted from then on,
  -- all of them wait, behind those that waited, and none is started.
  pub removed_branch_stalls :
      (now now' : ℕ) (order : List String → List String) (x y : String) (o : Outcome)
      (rest ys : List String)
      → IsWellFormed l.tree
      → has x l.tree.nodes ≡ true
      → x ≢ l.tree.root_id
      → ((zs : List String) (z : String) → elem z (order zs) ≡ elem z zs)
      → ((z : String) (n : MessageNode)
          → IsBelow l.tree.nodes x z
          → get z l.tree.nodes ≡ some n
          → is_terminal n.state ≡ true)
      → IsBelow l.tree.nodes x y
      → l.tree.queue.deque ≡ y ∷ rest
      → (enough : ℕ) × (u : MessageTree) × (removed : List MessageNode) × ((fuel : ℕ)
          → enough ≤ fuel
          → (cancel_branch_of fuel now order x l.tree ≡ some (l.tree, []))
            × (remove_branch fuel x l.tree ≡ some (u, ok removed)))
        × IsStuck l.started (rest ++ ys) (
            submit_all ys (
              after_process
                (record l { tree = u })
                (before ++ ending_job k ∷ after)
                (process_ended c now' k o u)))
  removed_branch_stalls now now' order x y o rest ys w there inner same_items done below first =
      let s = serial in
      let known = s.known y (rw first (elem_head y rest)) in
      let (enough, u, removed, run, p) =
        terminal_removed now order l.tree x w there inner same_items done in
      let d =
        dangling_ended c now' k o u y rest (ap (λ v. v.queue.deque) p.same ∙ first) known.1
          (ground (arith, p.gone y below)) in
      let (on, b, a, kept) = running c l s (begun_job k) before after e refl in
      let ended = before ++ ending_job k ∷ after in
      (
        enough,
        u,
        removed,
        run,
        submit_all-IsStuck l.started rest ys
            (after_process (record l { tree = u }) ended (process_ended c now' k o u))
            (unfold after_process in
              record {
                idle =
                    ap active (ap (λ z. ended ++ z) d.0 ∙ append-nil ended)
                    ∙ (quiet c l s k before after b a).0;
                busy = d.2;
                waits = d.3;
                begun = ap (λ z. l.started ++ z) d.1 ∙ append-nil l.started;
              }),
      )

  -- Let a node `y` of the tree be submitted after `cancel_tree` and before the task of `k` has ended.
  -- Then two tasks are active. When the first ends, as a task of the loop may, the tree is marked free
  -- while the task of `y` is active; and a node `z` of the tree that is then submitted makes them two
  -- again.
  pub cancel_tree_overlaps :
      (now : ℕ) (y z : String)
      → ((j : String) (n : MessageNode) → get j l.tree.nodes ≡ some n → n.node_id ≡ j)
      → has y l.tree.nodes ≡ true
      → has z l.tree.nodes ≡ true
      → let first_l = after_node y (after_cancel now l) in
        let ended_l = after_end c now k before (after ++ waiting_job y ∷ []) first_l in
        let second_l = after_node z ended_l in
        (active first_l.jobs ≡ begun_job k ∷ waiting_job y ∷ [])
        × Step c first_l ended_l
        × (ended_l.tree.is_processing ≡ false)
        × (active ended_l.jobs ≡ waiting_job y ∷ [])
        × (active second_l.jobs ≡ waiting_job y ∷ waiting_job z ∷ [])
  unfolding after_submit after_process
  cancel_tree_overlaps now y z keyed has_y has_z =
      let (on, b, a, kept) = running c l serial (begun_job k) before after e refl in
      let u = (cancel_tree_of now l.tree).0 in
      let cancelled_u : IsCancelled l.tree u = cancel_tree_of-IsCancelled now l.tree keyed in
      let first = launched y u cancelled_u.free (cancelled_u.lost y ∙ has_y) in
      let u₁ = (enqueue_and_start y u).0 in
      let second = ended_free c now k u₁ (first.1 ∙ cancelled_u.empty) in
      let u₂ = (process_ended c now k cancelled u₁).0 in
      let third =
        launched z u₂ second.1
          (ap (λ d. has z d) (second.2 ∙ first.2) ∙ cancelled_u.lost z ∙ has_z) in
      let one : active l.jobs ≡ begun_job k ∷ [] =
        ap active e ∙ active-append before (begun_job k ∷ after) ∙ rw (b, a) refl in
      let rest = before ++ ending_job k ∷ (after ++ waiting_job y ∷ []) in
      let one' : active (rest ++ spawned (process_ended c now k cancelled u₁).1)
          ≡ waiting_job y ∷ [] =
        ap active (ap (λ js. rest ++ js) second.0 ∙ append-nil rest)
        ∙ active-append before (ending_job k ∷ (after ++ waiting_job y ∷ []))
        ∙ ap₂ ◌++◌ b
            (active-append after (waiting_job y ∷ []) ∙ ap (λ js. js ++ waiting_job y ∷ []) a) in
      (
        active-append l.jobs (spawned (enqueue_and_start y u).2) ∙ rw (one, first.3) refl,
        finish now k cancelled before (after ++ waiting_job y ∷ [])
            (ap₂ ◌++◌ e first.3 ∙ append_assoc before (begun_job k ∷ after) (waiting_job y ∷ []))
            refl,
        second.1,
        one',
        active-append (rest ++ spawned (process_ended c now k cancelled u₁).1)
              (spawned (enqueue_and_start z u₂).2)
            ∙ ap₂ ◌++◌ one' (ap active third.3),
      )
