-- ===== src/Trees/Processor/Serial.antt =====
-- One node of a tree at a time, in the order of submission (TreeQueueProcessor of
-- messaging/trees/queue_manager.py).
use mathlib.Core.List.{Sublist, sublist-append_left}
use mathlib.Core.List.Sublist
use claude_unbound.Prelude.{
  ℕ, ◌≤◌, length, String, true, false, ◌≡◌, ◌⊎◌, inl, inr, refl, sym, ap, ◌∙◌, subst, Bool-cases,
  none, some, List, [], ◌∷◌, ◌++◌, eq_iff, truthy, ◌≢◌, elem, elem-without, elem-append, append-nil,
  append_assoc, arith,
}
use claude_unbound.Prelude.Dict.{Dict, has}
use claude_unbound.Trees.Node.{MessageNode, error}
use claude_unbound.Trees.Tree.Nodes.{has-update_node}
use claude_unbound.Trees.Queue.{remove_if_present}
use claude_unbound.Trees.Tree.{MessageTree, set_state, remove_from_queue, clear_current_node}
use claude_unbound.Trees.Processor.{
  Callbacks, Outcome, returned, cancelled, failed, process_next, process_ended, process_skipped,
  enqueue_and_start,
}
use claude_unbound.Trees.Processor.Loop.{
  Job, Rewrites, Loop, Step, submit, skip, begin, finish, rewrite, withdraw, Reach, here, then,
  after_process, after_submit, waiting_job, begun_job, ending_job, is_active, active, leave, lose,
  lose_begun,
}
use claude_unbound.Trees.Processor.Invariant.{
  IsIdle, IsBusy, IsStalled, IsSerial, active-append, active_first, next-IsSerial, queued, launched,
  without-sublist, alone, none-left, snoc-some,
}

module _ (c : Callbacks) (l : Loop) (s : IsSerial l) where
  pub running :
      (j : Job) (before after : List Job)
      → l.jobs ≡ before ++ j ∷ after
      → is_active j ≡ true
      → (l.tree.is_processing ≡ true) × (active before ≡ []) × (active after ≡ []) × (l.lost ≡ [])
  running j before after e on =
      let found : active l.jobs ≡ active before ++ j ∷ active after =
        ap active e
        ∙ active-append before (j ∷ after)
        ∙ ap (λ z. active before ++ z) (active_first j after on) in
      elim s.one [
        | inl idle ↦ absurd (none-left j (active before) (active after) (sym idle.0 ∙ found))
        | inr (inl (busy, k, one, kept)) ↦
            let (b, a) = alone j k (active before) (active after) (sym one ∙ found) in
            (busy, b, a, kept)
        | inr (inr stalled) ↦
            absurd (none-left j (active before) (active after) (sym stalled.1 ∙ found))
      ]

  -- What is left once the task of a step is ending, or gone.
  pub quiet :
      (node_id : String) (before after : List Job)
      → active before ≡ []
      → active after ≡ []
      → (active (before ++ ending_job node_id ∷ after) ≡ []) × (active (before ++ after) ≡ [])
  quiet node_id before after b a = (
    active-append before (ending_job node_id ∷ after) ∙ rw (b, a) refl,
    active-append before after ∙ rw (b, a) refl,
  )

  -- The task of the step ends, and `_process_next` runs on a tree with the same queue.
  handed_on :
      (j : Job) (before after : List Job) (t : MessageTree)
      → l.jobs ≡ before ++ j ∷ after
      → t.queue ≡ l.tree.queue
      → ((x : String) → has x t.nodes ≡ has x l.tree.nodes)
      → is_active j ≡ true
      → IsSerial (after_process l (before ++ ending_job j.node_id ∷ after) (process_next c t))
  handed_on j before after t e same_queue same_nodes on_job =
      let (on, b, a, kept) = running j before after e on_job in
      next-IsSerial c l t
        (λ x m.
          let k = s.known x (subst (λ q. elem x q.deque ≡ true) same_queue m) in
          (same_nodes x ∙ k.0, k.1))
        (before ++ ending_job j.node_id ∷ after) (quiet j.node_id before after b a).0 kept
        l.tree.queue.deque (ap (λ q. q.deque) same_queue) s.order

  -- A busy tree stays as it is when the same tasks are active and none is lost.
  still :
      (m : Loop)
      → l.tree.is_processing ≡ true
      → m.tree.is_processing ≡ true
      → active m.jobs ≡ active l.jobs
      → m.lost ≡ l.lost
      → IsIdle m ⊎ (IsBusy m ⊎ IsStalled m)
  still m on on' same_jobs same_lost = elim s.one [
    | inl idle ↦ absurd (ground (arith, idle.1))
    | inr (inl b) ↦ inr (inl (on', b.1, same_jobs ∙ b.2, same_lost ∙ b.3))
    | inr (inr b) ↦ inr (inr (on', same_jobs ∙ b.1, (λ e. b.2 (sym same_lost ∙ e))))
  ]

  free :
      l.tree.is_processing ≡ false
      → (active l.jobs ≡ []) × (l.tree.queue.deque ≡ []) × (l.lost ≡ [])
  free off = elim s.one [
    | inl idle ↦ (idle.0, idle.2, idle.3)
    | inr (inl b) ↦ absurd (ground (arith, b.0))
    | inr (inr b) ↦ absurd (ground (arith, b.0))
  ]

  submitted_known :
      (node_id x : String)
      → has node_id l.tree.nodes ≡ true
      → truthy node_id ≡ true
      → (d : Dict MessageNode) → d ≡ l.tree.nodes
      → elem x (l.tree.queue.deque ++ node_id ∷ []) ≡ true
      → (has x d ≡ true) × (truthy x ≡ true)
  submitted_known node_id x there name d e m =
      rw e (
        ground
          (arith, s.known x, elem-append x l.tree.queue.deque (node_id ∷ []), eq_iff node_id x))

  submit-IsSerial :
      (node_id : String)
      → has node_id l.tree.nodes ≡ true
      → truthy node_id ≡ true
      → IsSerial (after_submit l node_id (enqueue_and_start node_id l.tree))
  unfolding after_submit
  submit-IsSerial node_id there name = elim (Bool-cases l.tree.is_processing) [
    | inl on ↦
        let q = queued node_id l.tree on in
        record {
          one =
              still (after_submit l node_id (enqueue_and_start node_id l.tree)) on q.0
                (ap active (ap (λ z. l.jobs ++ z) q.3 ∙ append-nil l.jobs)) refl;
          known = λ x m. submitted_known node_id x there name _ q.2 (rw q.1 at m);
          order =
              rw (q.4, q.1)
                (subst (λ ys. Sublist ys (l.submitted ++ node_id ∷ []))
                  (append_assoc l.started l.tree.queue.deque (node_id ∷ [])
                    ∙ ap (λ ys. ys ++ (l.tree.queue.deque ++ node_id ∷ []))
                        (sym (append-nil l.started)))
                  (Sublist.append s.order (Sublist.refl (node_id ∷ []))));
        }
    | inr off ↦
        let f = launched node_id l.tree off there in
        record {
          one = inr (
              inl (
                f.0,
                waiting_job node_id,
                active-append l.jobs _ ∙ rw ((free off).0, f.3) refl,
                (free off).2,
              ));
          known = λ x m.
              submitted_known node_id x there name _ f.2
                (ground (arith, rw f.1 at m, elem-append x l.tree.queue.deque (node_id ∷ [])));
          order =
              rw (f.4, f.1, (free off).1)
                (rw append-nil (
                  Sublist.append
                    (subst (λ ys. Sublist ys l.submitted)
                      (ap (λ ys. l.started ++ ys) (free off).1 ∙ append-nil l.started) s.order)
                    (Sublist.refl (node_id ∷ []))));
        }
  ]

  withdrawn :
      (node_id x : String)
      → elem x (remove_from_queue node_id l.tree).1.queue.deque ≡ true
      → elem x l.tree.queue.deque ≡ true
  unfolding remove_from_queue remove_if_present
  withdrawn node_id x m = ground (arith, elem-without x node_id l.tree.queue.deque)

  withdrawn_one :
      (node_id : String)
      → let m : Loop = record l { tree = (remove_from_queue node_id l.tree).1 } in
        IsIdle m ⊎ (IsBusy m ⊎ IsStalled m)
  unfolding remove_from_queue remove_if_present
  withdrawn_one node_id = elim s.one [
    | inl idle ↦ inl (idle.0, idle.1, ground arith, idle.3)
    | inr b ↦ inr b
  ]

  withdrawn_known :
      (node_id x : String)
      → elem x l.tree.queue.deque ≡ true
      → (has x (remove_from_queue node_id l.tree).1.nodes ≡ true) × (truthy x ≡ true)
  unfolding remove_from_queue
  withdrawn_known node_id x m = s.known x m

  withdrawn-sublist :
      (node_id : String)
      → Sublist (remove_from_queue node_id l.tree).1.queue.deque l.tree.queue.deque
  unfolding remove_from_queue remove_if_present
  withdrawn-sublist node_id = elim (Bool-cases (l.tree.queue.set node_id)) [
    | inl e ↦ rw e (without-sublist node_id l.tree.queue.deque)
    | inr e ↦ rw e (Sublist.refl l.tree.queue.deque)
  ]

  withdraw-IsSerial :
      (node_id : String) → IsSerial (record l { tree = (remove_from_queue node_id l.tree).1 })
  withdraw-IsSerial node_id = record {
    one = withdrawn_one node_id;
    known = λ x m. withdrawn_known node_id x (withdrawn node_id x m);
    order =
        Sublist.trans (Sublist.append (Sublist.refl l.started) (withdrawn-sublist node_id)) s.order;
  }

  rewrite-IsSerial : (u : MessageTree) → Rewrites l.tree u → IsSerial (record l { tree = u })
  rewrite-IsSerial u r =
      let on : u.is_processing ≡ l.tree.is_processing = ap (λ v. v.is_processing) r.same in
      let waits : u.queue ≡ l.tree.queue = ap (λ v. v.queue) r.same in
      record {
        one = rw (on, waits) s.one;
        known = λ x m.
            let k = s.known x (subst (λ q. elem x q.deque ≡ true) waits m) in (r.kept x k.0, k.1);
        order = rw waits s.order;
      }

  finish-IsSerial :
      (now : ℕ) (node_id : String) (o : Outcome) (before after : List Job)
      → l.jobs ≡ before ++ begun_job node_id ∷ after
      → IsSerial (
          after_process l
            (before ++ ending_job node_id ∷ after)
            (process_ended c now node_id o l.tree))
  unfolding process_ended
  finish-IsSerial now node_id (failed msg) before after e =
      handed_on (begun_job node_id) before after _ e refl
        (λ x. has-update_node node_id (set_state now error none (some msg)) l.tree.nodes x) refl
  finish-IsSerial now node_id returned before after e =
      handed_on (begun_job node_id) before after _ e refl (λ x. refl) refl
  finish-IsSerial now node_id cancelled before after e =
      handed_on (begun_job node_id) before after _ e refl (λ x. refl) refl

  -- A task that has handed on leaves.
  leave-IsSerial :
      (node_id : String) (before after : List Job)
      → l.jobs ≡ before ++ ending_job node_id ∷ after
      → IsSerial (record l { jobs = before ++ after })
  leave-IsSerial node_id before after e =
      let same : active (before ++ after) ≡ active l.jobs =
        active-append before after
        ∙ sym (active-append before (ending_job node_id ∷ after))
        ∙ ap active (sym e) in
      record {
        one = elim s.one [
          | inl idle ↦ inl (same ∙ idle.0, idle.1, idle.2, idle.3)
          | inr (inl b) ↦ inr (inl (b.0, b.1, same ∙ b.2, b.3))
          | inr (inr b) ↦ inr (inr (b.0, same ∙ b.1, b.2))
        ];
        known = s.known;
        order = s.order;
      }

  -- The one active task is gone, and `_process_next` was not run for it.
  lost-IsSerial :
      (j : Job) (before after : List Job) (t : MessageTree)
      → l.jobs ≡ before ++ j ∷ after
      → is_active j ≡ true
      → t.is_processing ≡ l.tree.is_processing
      → t.queue ≡ l.tree.queue
      → ((x : String) → has x t.nodes ≡ has x l.tree.nodes)
      → IsSerial (record l { tree = t; jobs = before ++ after; lost = l.lost ++ j.node_id ∷ [] })
  lost-IsSerial j before after t e on_job same_flag same_queue same_nodes =
      let (on, b, a, kept) = running j before after e on_job in
      record {
        one = inr (
            inr (
              same_flag ∙ on,
              (quiet j.node_id before after b a).1,
              (λ z. snoc-some l.lost j.node_id z),
            ));
        known = λ x m.
            let k = s.known x (subst (λ q. elem x q.deque ≡ true) same_queue m) in
            (same_nodes x ∙ k.0, k.1);
        order = subst (λ q. Sublist (l.started ++ q.deque) l.submitted) (sym same_queue) s.order;
      }

  Step-IsSerial : (m : Loop) → Step c l m → IsSerial m
  Step-IsSerial m (submit node_id there name e) = rw e (submit-IsSerial node_id there name)
  Step-IsSerial m (skip node_id n before after e there skipped f) = rw f (
      unfold process_skipped in
      handed_on (waiting_job node_id) before after l.tree e refl (λ x. refl) refl)
  Step-IsSerial m (begin node_id n before after e there begun f) =
      let (on, b, a, kept) = running (waiting_job node_id) before after e refl in
      rw f (record {
        one = inr (
            inl (
              on,
              begun_job node_id,
              active-append before (begun_job node_id ∷ after) ∙ rw (b, a) refl,
              kept,
            ));
        known = s.known;
        order = s.order;
      })
  Step-IsSerial m (finish now node_id o before after e f) =
      rw f (finish-IsSerial now node_id o before after e)
  Step-IsSerial m (leave node_id before after e f) = rw f (leave-IsSerial node_id before after e)
  Step-IsSerial m (lose node_id before after e f) =
      rw f (lost-IsSerial (waiting_job node_id) before after l.tree e refl refl refl (λ x. refl))
  Step-IsSerial m (lose_begun node_id true before after e f) = rw f (
      unfold clear_current_node in
      lost-IsSerial (begun_job node_id) before after _ e refl refl refl (λ x. refl))
  Step-IsSerial m (lose_begun node_id false before after e f) =
      rw f (lost-IsSerial (begun_job node_id) before after l.tree e refl refl refl (λ x. refl))
  Step-IsSerial m (rewrite u r e) = rw e (rewrite-IsSerial u r)
  Step-IsSerial m (withdraw node_id e) = rw e (withdraw-IsSerial node_id)

pub Reach-IsSerial : (c : Callbacks) (l m : Loop) → IsSerial l → Reach c l m → IsSerial m
Reach-IsSerial c l m s here = s
Reach-IsSerial c l m s (then {m = k} r st) = Step-IsSerial c k (Reach-IsSerial c l k s r) m st

abbrev pub unstarted : MessageTree → Loop
unstarted t = record { tree = t; jobs = []; submitted = []; started = []; lost = [] }

pub unstarted-IsSerial :
    (t : MessageTree) → t.is_processing ≡ false → t.queue.deque ≡ [] → IsSerial (unstarted t)
unstarted-IsSerial t off empty = record {
  one = inl (refl, off, empty, refl);
  known = λ x m. absurd (ground arith);
  order = rw empty (Sublist.refl []);
}

-- From a free tree with an empty queue, whatever nodes of the tree are submitted, withdrawn and
-- written, however the processor's calls end, however long an ended task awaits its callbacks, and
-- whichever tasks are cancelled: at most one task has not yet handed on. If every task that ended ran
-- `_process_next`, then while no task is active the tree is free and its queue empty, so no submitted
-- node is left behind. If some task ended without it, no task is active and the tree stays busy. The
-- nodes are started in the order of their submission.
pub one_at_a_time :
    (c : Callbacks) (t : MessageTree) (l : Loop)
    → t.is_processing ≡ false
    → t.queue.deque ≡ []
    → Reach c (unstarted t) l
    → (length (active l.jobs) ≤ 1)
      × (l.lost ≡ []
          → active l.jobs ≡ []
          → (l.tree.is_processing ≡ false) × (l.tree.queue.deque ≡ []))
      × (l.lost ≢ [] → (active l.jobs ≡ []) × (l.tree.is_processing ≡ true))
      × Sublist l.started l.submitted
one_at_a_time c t l off empty r =
    let s : IsSerial l = Reach-IsSerial c (unstarted t) l (unstarted-IsSerial t off empty) r in
    (
      count s,
      idle s,
      stalled s,
      Sublist.trans (sublist-append_left l.started l.tree.queue.deque) s.order,
    )
  where
    count : IsSerial l → length (active l.jobs) ≤ 1
    count s = elim s.one [
      | inl none_runs ↦ rw none_runs.0 (omega arith)
      | inr (inl b) ↦ rw b.2 (omega arith)
      | inr (inr b) ↦ rw b.1 (omega arith)
    ]

    idle :
        IsSerial l
        → l.lost ≡ []
        → active l.jobs ≡ []
        → (l.tree.is_processing ≡ false) × (l.tree.queue.deque ≡ [])
    idle s kept e = elim s.one [
      | inl none_runs ↦ (none_runs.1, none_runs.2)
      | inr (inl b) ↦ absurd (none-left b.1 [] [] (sym e ∙ b.2))
      | inr (inr b) ↦ absurd (b.2 kept)
    ]

    stalled : IsSerial l → l.lost ≢ [] → (active l.jobs ≡ []) × (l.tree.is_processing ≡ true)
    stalled s some_lost = elim s.one [
      | inl none_runs ↦ absurd (some_lost none_runs.3)
      | inr (inl b) ↦ absurd (some_lost b.3)
      | inr (inr b) ↦ (b.1, b.0)
    ]
