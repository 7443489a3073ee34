-- ===== src/Trees/Processor/Invariant.antt =====
-- The invariant of the tasks of one tree (TreeQueueProcessor of messaging/trees/queue_manager.py), and
-- what `_process_next` and `enqueue_and_start` do to its parts.
use mathlib.Core.List.{Sublist}
use mathlib.Core.List.Sublist
use claude_unbound.Prelude.{
  String, true, false, ◌≡◌, ◌⊎◌, inl, inr, refl, sym, ap, ◌∙◌, subst, Bool-cases, List, [], ◌∷◌,
  ◌++◌, ◌==◌, truthy, keep-append, ◌≢◌, elem, elem_head, append-nil, append_assoc, without, arith,
}
use claude_unbound.Prelude.Dict.{has}
use claude_unbound.Trees.Queue.{get_nowait, put_nowait}
use claude_unbound.Trees.Tree.{MessageTree}
use claude_unbound.Trees.Processor.{Callbacks, process_next, enqueue_and_start}
use claude_unbound.Trees.Processor.Loop.{
  Job, Loop, after_process, spawned, spawned_ids, waiting_job, is_active, active,
}

-- Nothing runs and nothing waits; or one task runs; or a task was lost, and the tree stays busy.
abbrev pub IsIdle : Loop → Type 0
IsIdle l =
    (active l.jobs ≡ [])
    × (l.tree.is_processing ≡ false)
    × (l.tree.queue.deque ≡ [])
    × (l.lost ≡ [])

abbrev pub IsBusy : Loop → Type 0
IsBusy l = (l.tree.is_processing ≡ true) × (j : Job) × (active l.jobs ≡ j ∷ []) × (l.lost ≡ [])

abbrev pub IsStalled : Loop → Type 0
IsStalled l = (l.tree.is_processing ≡ true) × (active l.jobs ≡ []) × (l.lost ≢ [])

pub record IsSerial (l : Loop) : Type 0 where
  pub one : IsIdle l ⊎ (IsBusy l ⊎ IsStalled l)
  -- every node that waits is in the tree, under a non-empty id
  pub known :
      (x : String)
      → elem x l.tree.queue.deque ≡ true
      → (has x l.tree.nodes ≡ true) × (truthy x ≡ true)
  -- what was started, and then what waits, are submitted nodes in the order of submission
  pub order : Sublist (l.started ++ l.tree.queue.deque) l.submitted

-- `_process_next` on an empty queue marks the tree free; else it takes the first node, marks it as the
-- current one and makes one task for it.
pub record Continues (c : Callbacks) (t : MessageTree) (l : List String) : Type 0 where
  pub free :
      l ≡ []
      → let (u, es) = process_next c t in
        (u.is_processing ≡ false) × (u.queue.deque ≡ []) × (spawned es ≡ []) × (spawned_ids es ≡ [])
  pub taken :
      (x : String) (rest : List String)
      → l ≡ x ∷ rest
      → truthy x ≡ true
      → has x t.nodes ≡ true
      → let (u, es) = process_next c t in
        (u.is_processing ≡ true)
        × (u.queue.deque ≡ rest)
        × (spawned es ≡ waiting_job x ∷ [])
        × (spawned_ids es ≡ x ∷ [])
  pub nodes : (process_next c t).0.nodes ≡ t.nodes

pub continues : (c : Callbacks) (t : MessageTree) → Continues c t t.queue.deque
unfolding process_next get_nowait
continues c t = record {
  free = λ e. ground arith;
  taken = λ x rest e name there. ground arith;
  nodes = ground arith;
}

abbrev pub Known : MessageTree → Type 0
Known t = (x : String) → elem x t.queue.deque ≡ true → (has x t.nodes ≡ true) × (truthy x ≡ true)

pub active-append : (xs ys : List Job) → active (xs ++ ys) ≡ active xs ++ active ys
active-append xs ys = keep-append is_active xs ys

pub active_first : (j : Job) (js : List Job) → is_active j ≡ true → active (j ∷ js) ≡ j ∷ active js
active_first j js on = rw on refl

module _ (c : Callbacks) (l : Loop) (t : MessageTree) (known : Known t) (rest_jobs : List Job)
    (quiet : active rest_jobs ≡ []) (none_lost : l.lost ≡ []) where
  -- What is active after `_process_next` is the task that it creates.
  pub spawned-active :
      (js : List Job)
      → spawned (process_next c t).1 ≡ js
      → active (rest_jobs ++ spawned (process_next c t).1) ≡ active js
  spawned-active js e =
      active-append rest_jobs (spawned (process_next c t).1)
      ∙ ap (λ z. z ++ active (spawned (process_next c t).1)) quiet
      ∙ ap active e

  pub next-IsSerial :
      (q : List String)
      → t.queue.deque ≡ q
      → Sublist (l.started ++ q) l.submitted
      → IsSerial (after_process l rest_jobs (process_next c t))
  unfolding after_process
  next-IsSerial [] e order =
      let k : Continues c t t.queue.deque = continues c t in
      let f = k.free e in
      record {
        one = inl (spawned-active [] f.2, f.0, f.1, none_lost);
        known = λ x m. absurd (ground arith);
        order =
            subst (λ ys. Sublist ys l.submitted)
              (rw (f.3, f.1) (sym (append-nil (l.started ++ [])))) order;
      }
  next-IsSerial (x ∷ rest) e order =
      let k : Continues c t t.queue.deque = continues c t in
      let (there, name) = known x (rw e (elem_head x rest)) in
      let f = k.taken x rest e name there in
      record {
        one = inr (inl (f.0, waiting_job x, spawned-active (waiting_job x ∷ []) f.2, none_lost));
        known = λ y m. let old = known y (rw e (ground arith)) in (rw k.nodes old.0, old.1);
        order =
            subst (λ ys. Sublist ys l.submitted)
              (rw (f.3, f.1) (sym (append_assoc l.started (x ∷ []) rest))) order;
      }

-- `enqueue_and_start` on a busy tree puts the node at the end of the queue; on a free one it makes
-- the node the current one, with a task.
pub queued :
    (node_id : String) (t : MessageTree)
    → t.is_processing ≡ true
    → let (u, b, es) = enqueue_and_start node_id t in
      (u.is_processing ≡ true)
      × (u.queue.deque ≡ t.queue.deque ++ node_id ∷ [])
      × (u.nodes ≡ t.nodes)
      × (spawned es ≡ [])
      × (spawned_ids es ≡ [])
      × (b ≡ true)
unfolding enqueue_and_start put_nowait
queued node_id t on = ground arith

pub launched :
    (node_id : String) (t : MessageTree)
    → t.is_processing ≡ false
    → has node_id t.nodes ≡ true
    → let (u, b, es) = enqueue_and_start node_id t in
      (u.is_processing ≡ true)
      × (u.queue.deque ≡ t.queue.deque)
      × (u.nodes ≡ t.nodes)
      × (spawned es ≡ waiting_job node_id ∷ [])
      × (spawned_ids es ≡ node_id ∷ [])
unfolding enqueue_and_start
launched node_id t off there = ground arith

pub without-sublist : (x : String) (l : List String) → Sublist (without x l) l
without-sublist x [] = Sublist.refl []
without-sublist x (y ∷ l) = elim (Bool-cases (y == x)) [
  | inl e ↦ rw e (Sublist.cons y (without-sublist x l))
  | inr e ↦ rw e (Sublist.cons-cons y (without-sublist x l))
]

-- The one task of the list is the task of the step.
pub alone :
    (j k : Job) (before after : List Job)
    → k ∷ [] ≡ before ++ j ∷ after
    → (before ≡ []) × (after ≡ [])
alone j k [] after e = ground arith
alone j k (b ∷ []) after e = absurd (ground arith)
alone j k (b ∷ b' ∷ bs) after e = absurd (ground arith)

pub none-left : (j : Job) (before after : List Job) → [] ≡ before ++ j ∷ after → ⊥
none-left j [] after e = cc
none-left j (b ∷ bs) after e = cc

pub snoc-some : (xs : List String) (x : String) → xs ++ x ∷ [] ≢ []
snoc-some [] x e = cc
snoc-some (y ∷ xs) x e = cc
