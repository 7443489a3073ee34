-- ===== src/Trees/Processor.antt =====
-- messaging/trees/queue_manager.py, class TreeQueueProcessor, for one tree. What runs between two
-- awaits, or under the tree's lock, is one function. A task that `create_task` makes and a callback
-- that is notified are effects, in their order; a callback that raises is logged and nothing else.
pub mod Loop
pub mod Invariant
pub mod Serial
use claude_unbound.Prelude.{
  ℕ, String, Bool, true, false, Option, none, some, List, [], ◌∷◌, ◌++◌, ◌==◌, truthy?,
  if◌then◌else◌,
}
use claude_unbound.Trees.Node.{MessageNode, error, is_error}
use claude_unbound.Trees.Tree.{
  MessageTree, Task, dequeue, set_processing_state, get_node, set_current_task, update_state,
  clear_current_node, put_queue_unlocked, cancel_current_task,
}

pub data Effect : Type 0 where
  task_created node_started : String → Effect
  queue_updated : Effect

abbrev pub new_task : String → Task
new_task node_id = record { node_id = node_id; done = false; cancelled = false }

-- The callbacks that are set.
pub record Callbacks : Type 0 where
  pub on_queue_update : Bool
  pub on_node_started : Bool

unfoldable pub notify_queue_updated : Callbacks → List Effect
notify_queue_updated c = if c.on_queue_update then queue_updated ∷ [] else []

unfoldable pub notify_node_started : Callbacks → String → List Effect
notify_node_started c node_id = if c.on_node_started then node_started node_id ∷ [] else []

-- `if node: tree.set_current_task(asyncio.create_task(...))`.
create_task : Option MessageNode → String → MessageTree → MessageTree × List Effect
create_task none node_id t = (t, [])
create_task (some n) node_id t =
    (set_current_task (some (new_task node_id)) t, task_created node_id ∷ [])

start : Callbacks → String → MessageTree → MessageTree × List Effect
unfolding create_task set_current_task notify_queue_updated notify_node_started set_processing_state
    get_node
start c node_id t =
    let (t', made) =
      create_task (get_node t node_id) node_id (set_processing_state (some node_id) true t) in
    (t', made ++ (notify_node_started c node_id ++ notify_queue_updated c))

next : Callbacks → Option String → MessageTree → MessageTree × List Effect
unfolding start
next c none t = (set_processing_state none false t, [])
next c (some node_id) t =
    if truthy? (some node_id) then start c node_id t else (set_processing_state none false t, [])

unfoldable pub process_next : Callbacks → MessageTree → MessageTree × List Effect
unfolding next dequeue
process_next c t = let (node_id, t') = dequeue t in next c node_id t'

-- How the processor's coroutine ends; `failed` has the message shown to the user.
pub data Outcome : Type 0 where
  returned cancelled : Outcome
  failed : String → Outcome

-- `process_node` up to the processor's call: a node in state ERROR is skipped.
unfoldable pub skips : MessageNode → Bool
skips n = is_error n.state

-- `process_node` of a node that is skipped.
unfoldable pub process_skipped : Callbacks → MessageTree → MessageTree × List Effect
unfolding process_next
process_skipped c t = process_next c t

-- `process_node` from the end of the processor's call: the handlers, then the `finally` block.
unfoldable pub process_ended :
    Callbacks → ℕ → String → Outcome → MessageTree → MessageTree × List Effect
unfolding process_next update_state clear_current_node
process_ended c now node_id (failed msg) t =
    process_next c (clear_current_node (update_state now node_id error none (some msg) t))
process_ended c now node_id returned t = process_next c (clear_current_node t)
process_ended c now node_id cancelled t = process_next c (clear_current_node t)

unfoldable pub enqueue_and_start : String → MessageTree → MessageTree × Bool × List Effect
unfolding create_task put_queue_unlocked set_processing_state set_current_task get_node
enqueue_and_start node_id t =
    if t.is_processing
    then (put_queue_unlocked node_id t, true, [])
    else (let (t', made) =
          create_task (get_node t node_id) node_id (set_processing_state (some node_id) true t) in
        (t', false, made))

unfoldable pub cancel_current : MessageTree → Bool × MessageTree
unfolding cancel_current_task
cancel_current t = cancel_current_task t
