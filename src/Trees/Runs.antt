-- ===== src/Trees/Runs.antt =====
-- Runs of messaging/trees/queue_manager.py on the chain of three messages.
use mathlib.Core.List.{Sublist}
use claude_unbound.Prelude.{
  ℕ, ◌≤◌, length, String, true, false, ◌≡◌, ◌≢◌, refl, ◌∙◌, none, some, List, [], ◌∷◌, arith, elem,
  eq_iff,
}
use claude_unbound.Prelude.Dict.{get, has, put as set}
use claude_unbound.Trees.Queue.{put, put_nowait, get_nowait}
use claude_unbound.Trees.Node.{MessageNode, error, new_node, is_terminal}
use claude_unbound.Trees.Tree.{
  MessageTree, ok, new_tree, add_node, update_node, enqueue, update_state, set_state, remove_branch,
  append_child, put_queue_unlocked, set_current_task, set_processing_state,
}
use claude_unbound.Trees.Tree.Nodes.{has-update_node}
use claude_unbound.Trees.Tree.Walk.{IsBelow, here, child}
use claude_unbound.Trees.Tree.Shape.{IsWellFormed}
use claude_unbound.Trees.Tree.Keeps.{
  update_state-IsWellFormed, enqueue-IsWellFormed, requeued-IsWellFormed,
}
use claude_unbound.Trees.Processor.{Callbacks, skips, returned, process_ended, enqueue_and_start}
use claude_unbound.Trees.Processor.Loop
use claude_unbound.Trees.Processor.Loop.{
  Loop, Step, Reach, submit, begin, finish, after_process, after_submit, waiting_job, begun_job,
  ending_job, active, lose, rewrite, Rewrites,
}
use claude_unbound.Trees.Processor.Serial.{unstarted, one_at_a_time}
use claude_unbound.Trees.Manager.{cancel_branch_of}
use claude_unbound.Trees.Manager.Races.{
  IsStuck, submit_all, after_cancel, after_node, after_end, removed_branch_stalls,
  removed_still_waits, cancel_tree_overlaps,
}
use claude_unbound.Trees.Examples.{hello, three, three-IsWellFormed}

abbrev both : Callbacks
both = record { on_queue_update = true; on_node_started = true }

-- "r" and "a" are submitted; then "r" is processed, and "a" follows it.
abbrev submitted_r : Loop
submitted_r = after_submit (unstarted three) "r" (enqueue_and_start "r" three)

abbrev submitted_a : Loop
submitted_a = after_submit submitted_r "a" (enqueue_and_start "a" submitted_r.tree)

abbrev began_r : Loop
began_r = record submitted_a { jobs = begun_job "r" ∷ [] }

abbrev ended_r : Loop
ended_r =
    after_process began_r (ending_job "r" ∷ []) (process_ended both 9 "r" returned began_r.tree)

two_submitted : Reach both (unstarted three) submitted_a
unfolding add_node new_tree new_node get set update_node enqueue_and_start after_submit
two_submitted =
    Loop.then (Loop.then Loop.here (submit "r" refl refl refl)) (submit "a" refl refl refl)

run : Reach both (unstarted three) ended_r
unfolding add_node new_tree new_node get set update_node enqueue_and_start after_submit skips
run =
    Loop.then
      (Loop.then two_submitted
        (begin "r" (append_child "a" (new_node 0 "r" hello "s0" none)) [] [] refl refl refl refl))
      (finish 9 "r" returned [] [] refl refl)

free_three : (three.is_processing ≡ false) × (three.queue.deque ≡ [])
unfolding add_node new_tree new_node get set update_node
free_three = (refl, refl)

one_at_a_time_example :
    (length (active ended_r.jobs) ≤ 1)
    × (ended_r.lost ≡ []
        → active ended_r.jobs ≡ []
        → (ended_r.tree.is_processing ≡ false) × (ended_r.tree.queue.deque ≡ []))
    × (ended_r.lost ≢ [] → (active ended_r.jobs ≡ []) × (ended_r.tree.is_processing ≡ true))
    × Sublist ended_r.started ended_r.submitted
one_at_a_time_example = one_at_a_time both three ended_r free_three.0 free_three.1 run

-- The run gives "a" its task, while "r" still awaits the callbacks.
ended_r_lem :
    (ended_r.jobs ≡ ending_job "r" ∷ waiting_job "a" ∷ []) × (ended_r.started ≡ "r" ∷ "a" ∷ [])
unfolding add_node new_tree new_node get set update_node enqueue_and_start after_submit
    after_process process_ended put_nowait get_nowait
ended_r_lem = (refl, refl)

-- The task of "r" is cancelled before its first step: the tree stays busy without a task.
abbrev lost_r : Loop
lost_r = record submitted_a { jobs = []; lost = "r" ∷ [] }

lost_run : Reach both (unstarted three) lost_r
unfolding add_node new_tree new_node get set update_node enqueue_and_start after_submit
lost_run = Loop.then two_submitted (lose "r" [] [] refl refl)

lost_r_lem : (active lost_r.jobs ≡ []) × (lost_r.tree.is_processing ≡ true)
lost_r_lem =
    (one_at_a_time both three lost_r free_three.0 free_three.1 lost_run).2 (λ e. ground arith)

-- Every node in ERROR; and "b" still waiting.
abbrev failing : MessageTree → MessageTree
failing t =
    update_state 3 "b" error none none
      (update_state 3 "a" error none none (update_state 3 "r" error none none t))

failing_lem : (t : MessageTree) → Rewrites t (failing t)
unfolding update_state
failing_lem t = record {
  same = refl;
  kept = λ k m.
      has-update_node "b" (set_state 3 error none none) _ k
      ∙ has-update_node "a" (set_state 3 error none none) _ k
      ∙ has-update_node "r" (set_state 3 error none none) _ k
      ∙ m;
}

failing-IsWellFormed : (t : MessageTree) → IsWellFormed t → IsWellFormed (failing t)
failing-IsWellFormed t w = update_state-IsWellFormed 3 "b" error none none _ (
    update_state-IsWellFormed 3 "a" error none none _
      (update_state-IsWellFormed 3 "r" error none none t w))

abbrev failed_three : MessageTree
failed_three = (enqueue "b" (failing three)).0

failed_three-IsWellFormed : IsWellFormed failed_three
failed_three-IsWellFormed =
    enqueue-IsWellFormed "b" (failing three) (failing-IsWellFormed three three-IsWellFormed)

failed_three_lem :
    (has "a" failed_three.nodes ≡ true)
    × (elem "b" failed_three.queue.deque ≡ true)
    × ("a" ≢ failed_three.root_id)
    × ((z : String) (n : MessageNode)
        → get z failed_three.nodes ≡ some n
        → is_terminal n.state ≡ true)
    × IsBelow failed_three.nodes "a" "b"
unfolding add_node new_tree new_node get set update_node update_state set_state enqueue put
failed_three_lem = (
  refl,
  refl,
  (λ e. ground (arith, eq_iff "a" "r")),
  (λ z n e. ground arith),
  child {y = "a"} here refl,
)

removed_still_waits_example :
    (enough : ℕ) × (u : MessageTree) × (removed : List MessageNode) × ((fuel : ℕ)
      → enough ≤ fuel
      → (cancel_branch_of fuel 8 (λ l. l) "a" failed_three ≡ some (failed_three, []))
        × (remove_branch fuel "a" failed_three ≡ some (u, ok removed)))
    × (elem "b" u.queue.deque ≡ true)
    × (has "b" u.nodes ≡ false)
removed_still_waits_example =
    removed_still_waits 8 (λ l. l) failed_three "a" "b" failed_three-IsWellFormed failed_three_lem.0
      failed_three_lem.2 (λ l z. refl) (λ z n below e. failed_three_lem.3 z n e) failed_three_lem.4
      failed_three_lem.1

-- "r" is submitted, and its processor called.
abbrev running_r : Loop
running_r = record submitted_r { jobs = begun_job "r" ∷ [] }

begun_run : Reach both (unstarted three) running_r
unfolding add_node new_tree new_node get set update_node enqueue_and_start after_submit skips
begun_run =
    Loop.then (Loop.then Loop.here (submit "r" refl refl refl))
      (begin "r" (append_child "a" (new_node 0 "r" hello "s0" none)) [] [] refl refl refl refl)

running_r_lem :
    (running_r.jobs ≡ begun_job "r" ∷ [])
    × ((has "a" running_r.tree.nodes ≡ true) × (has "b" running_r.tree.nodes ≡ true))
    × IsWellFormed running_r.tree
unfolding add_node new_tree new_node get set update_node enqueue_and_start after_submit
running_r_lem =
    (refl, (refl, refl), requeued-IsWellFormed _ true (some "r") _ three three-IsWellFormed)

cancel_tree_overlaps_example :
    let first_l = after_node "a" (after_cancel 8 running_r) in
    let ended_l = after_end both 8 "r" [] (waiting_job "a" ∷ []) first_l in
    let second_l = after_node "b" ended_l in
    (active first_l.jobs ≡ begun_job "r" ∷ waiting_job "a" ∷ [])
    × Step both first_l ended_l
    × (ended_l.tree.is_processing ≡ false)
    × (active ended_l.jobs ≡ waiting_job "a" ∷ [])
    × (active second_l.jobs ≡ waiting_job "a" ∷ waiting_job "b" ∷ [])
cancel_tree_overlaps_example =
    cancel_tree_overlaps both three running_r free_three.0 free_three.1 begun_run "r" [] []
      running_r_lem.0 8 "a" "b" running_r_lem.2.keyed running_r_lem.1.0 running_r_lem.1.1

-- While "r" runs, "b" is submitted; then all three are put into ERROR, as `mark_node_error` does.
abbrev waiting_b : Loop
waiting_b = after_submit running_r "b" (enqueue_and_start "b" running_r.tree)

abbrev failed_b : Loop
failed_b = record waiting_b { tree = failing waiting_b.tree }

failed_run : Reach both (unstarted three) failed_b
unfolding add_node new_tree new_node get set update_node enqueue_and_start after_submit
failed_run =
    Loop.then (Loop.then begun_run (submit "b" refl refl refl))
      (rewrite (failing waiting_b.tree) (failing_lem waiting_b.tree) refl)

failed_b_lem :
    (failed_b.jobs ≡ begun_job "r" ∷ [])
    × (has "a" failed_b.tree.nodes ≡ true)
    × ("a" ≢ failed_b.tree.root_id)
    × ((z : String) (n : MessageNode)
        → get z failed_b.tree.nodes ≡ some n
        → is_terminal n.state ≡ true)
    × IsBelow failed_b.tree.nodes "a" "b"
    × (failed_b.tree.queue.deque ≡ "b" ∷ [])
unfolding add_node new_tree new_node get set update_node update_state set_state enqueue_and_start
    after_submit put_nowait
failed_b_lem = (
  refl,
  refl,
  (λ e. ground (arith, eq_iff "a" "r")),
  (λ z n e. ground arith),
  child {y = "a"} here refl,
  refl,
)

failed_b-IsWellFormed : IsWellFormed failed_b.tree
unfolding enqueue_and_start after_submit put_queue_unlocked set_current_task set_processing_state
    add_node get new_tree new_node update_node set
failed_b-IsWellFormed =
    failing-IsWellFormed waiting_b.tree
      (requeued-IsWellFormed _ true (some "r") _ three three-IsWellFormed)

removed_branch_stalls_example :
    (enough : ℕ) × (u : MessageTree) × (removed : List MessageNode) × ((fuel : ℕ)
      → enough ≤ fuel
      → (cancel_branch_of fuel 8 (λ l. l) "a" failed_b.tree ≡ some (failed_b.tree, []))
        × (remove_branch fuel "a" failed_b.tree ≡ some (u, ok removed)))
    × IsStuck failed_b.started ("r" ∷ []) (
        submit_all ("r" ∷ []) (
          after_process
            (record failed_b { tree = u })
            (ending_job "r" ∷ [])
            (process_ended both 9 "r" returned u)))
removed_branch_stalls_example =
    removed_branch_stalls both three failed_b free_three.0 free_three.1 failed_run "r" [] []
      failed_b_lem.0 8 9 (λ l. l) "a" "b" returned [] ("r" ∷ []) failed_b-IsWellFormed
      failed_b_lem.1 failed_b_lem.2 (λ l z. refl) (λ z n b e. failed_b_lem.3 z n e) failed_b_lem.4
      failed_b_lem.5
