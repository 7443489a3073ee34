-- ===== src/Trees/Processor/Loop.antt =====
-- The tasks of one tree, and the event loop that runs them (TreeQueueProcessor of
-- messaging/trees/queue_manager.py). A step is what runs between two awaits. `submitted`, `started`
-- and `lost` are the history: the nodes handed to `enqueue_and_start`, those that were made the current
-- node, and those whose task came to its end without `_process_next`, oldest first.
use claude_unbound.Prelude.{
  ℕ, String, Bool, true, false, ◌≡◌, some, List, [], ◌∷◌, ◌++◌, truthy, keep, if◌then◌else◌,
}
use claude_unbound.Prelude.Dict.{get, has}
use claude_unbound.Trees.Node.{MessageNode}
use claude_unbound.Trees.Tree.{MessageTree, remove_from_queue, clear_current_node}
use claude_unbound.Trees.Processor.{
  Callbacks, Effect, task_created, Outcome, skips, process_skipped, process_ended,
  enqueue_and_start,
}

-- A task of `process_node` has not had its first step, is in the processor's call or the handlers, or
-- has run `_process_next` up to the callbacks, which it still awaits.
pub data Stage : Type 0 where
  waiting begun ending : Stage

pub record Job : Type 0 where
  pub node_id : String
  pub stage : Stage

pub record Loop : Type 0 where
  pub tree : MessageTree
  pub jobs : List Job
  pub submitted : List String
  pub started : List String
  pub lost : List String

abbrev pub waiting_job : String → Job
waiting_job node_id = record { node_id = node_id; stage = waiting }

abbrev pub begun_job : String → Job
begun_job node_id = record { node_id = node_id; stage = begun }

abbrev pub ending_job : String → Job
ending_job node_id = record { node_id = node_id; stage = ending }

-- The task still has to run its node, or to hand on to the next one.
abbrev pub is_active : Job → Bool
is_active j = elim j.stage [ waiting ↦ true | begun ↦ true | ending ↦ false ]

abbrev pub active : List Job → List Job
active = keep is_active

-- The tasks that a step creates.
abbrev pub spawned : List Effect → List Job
spawned [] = []
spawned (task_created node_id ∷ es) = waiting_job node_id ∷ spawned es
spawned (_ ∷ es) = spawned es

abbrev pub spawned_ids : List Effect → List String
spawned_ids [] = []
spawned_ids (task_created node_id ∷ es) = node_id ∷ spawned_ids es
spawned_ids (_ ∷ es) = spawned_ids es

unfoldable pub after_process : Loop → List Job → MessageTree × List Effect → Loop
after_process l rest (t, es) = record {
  tree = t;
  jobs = rest ++ spawned es;
  submitted = l.submitted;
  started = l.started ++ spawned_ids es;
  lost = l.lost;
}

unfoldable pub after_submit : Loop → String → MessageTree × Bool × List Effect → Loop
after_submit l node_id (t, queued, es) = record {
  tree = t;
  jobs = l.jobs ++ spawned es;
  submitted = l.submitted ++ node_id ∷ [];
  started = l.started ++ spawned_ids es;
  lost = l.lost;
}

-- A write to the nodes that loses none: `add_node`, `update_state` and the like.
pub record Rewrites (t u : MessageTree) : Type 0 where
  pub same : u ≡ record t { nodes = u.nodes; status_to_node = u.status_to_node }
  pub kept : (k : String) → has k t.nodes ≡ true → has k u.nodes ≡ true

pub data Step (c : Callbacks) (l m : Loop) : Type 0 where
  -- a node of the tree is submitted
  submit :
      (node_id : String)
      → has node_id l.tree.nodes ≡ true
      → truthy node_id ≡ true
      → m ≡ after_submit l node_id (enqueue_and_start node_id l.tree)
      → Step c l m
  -- a task begins, and skips its node or calls the processor
  skip :
      (node_id : String) (n : MessageNode) (before after : List Job)
      → l.jobs ≡ before ++ waiting_job node_id ∷ after
      → get node_id l.tree.nodes ≡ some n
      → skips n ≡ true
      → m ≡ after_process l (before ++ ending_job node_id ∷ after) (process_skipped c l.tree)
      → Step c l m
  begin :
      (node_id : String) (n : MessageNode) (before after : List Job)
      → l.jobs ≡ before ++ waiting_job node_id ∷ after
      → get node_id l.tree.nodes ≡ some n
      → skips n ≡ false
      → m ≡ record l { jobs = before ++ begun_job node_id ∷ after }
      → Step c l m
  -- the processor returns, raises, or is cancelled
  finish :
      (now : ℕ) (node_id : String) (o : Outcome) (before after : List Job)
      → l.jobs ≡ before ++ begun_job node_id ∷ after
      → m
        ≡ after_process l
            (before ++ ending_job node_id ∷ after)
            (process_ended c now node_id o l.tree)
      → Step c l m
  -- a task has awaited the callbacks, and is done
  leave :
      (node_id : String) (before after : List Job)
      → l.jobs ≡ before ++ ending_job node_id ∷ after
      → m ≡ record l { jobs = before ++ after }
      → Step c l m
  -- a task is cancelled before its first step, in which case `process_node` is never entered, or
  -- while it waits for the tree's lock in `_process_next`
  lose :
      (node_id : String) (before after : List Job)
      → l.jobs ≡ before ++ waiting_job node_id ∷ after
      → m ≡ record l { jobs = before ++ after; lost = l.lost ++ node_id ∷ [] }
      → Step c l m
  -- a task that called the processor is cancelled while it waits for the lock in its `finally` block,
  -- before or after it clears the current node
  lose_begun :
      (node_id : String) (cleared : Bool) (before after : List Job)
      → l.jobs ≡ before ++ begun_job node_id ∷ after
      → m ≡ record l {
        tree = if cleared then clear_current_node l.tree else l.tree;
        jobs = before ++ after;
        lost = l.lost ++ node_id ∷ [];
      }
      → Step c l m
  -- the nodes are written, or a waiting node is withdrawn from the queue
  rewrite : (u : MessageTree) → Rewrites l.tree u → m ≡ record l { tree = u } → Step c l m
  withdraw :
      (node_id : String) → m ≡ record l { tree = (remove_from_queue node_id l.tree).1 } → Step c l m

pub data Reach (c : Callbacks) (l : Loop) : Loop → Type 0 where
  here : Reach c l l
  then : {m n : Loop} → Reach c l m → Step c m n → Reach c l n
