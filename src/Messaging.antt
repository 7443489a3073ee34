-- ===== src/Messaging.antt =====
-- messaging/limiter.py, class MessagingRateLimiter: the queue of messages to a platform. A newer task
-- for the same key takes the place of the one that waits, and its futures are added. A task and a
-- future are numbers; `results` holds the futures that are done, and `running` says whether the worker
-- is alive.
pub mod Refinement
pub mod Resolved
mod Examples
use claude_unbound.Prelude.{
  ℕ, String, Bool, true, false, not, Option, none, some, List, [], ◌∷◌, ◌++◌, if◌then◌else◌,
}
use claude_unbound.Prelude.Dict
use claude_unbound.Prelude.Dict.{Dict}
use claude_unbound.Prelude.Table.{Table, put, has}

-- What an awaited task comes to: `cancelled` is CancelledError, which is no Exception.
pub data Outcome : Type 0 where
  result exception : ℕ → Outcome
  cancelled : Outcome

abbrev pub is_cancelled : Outcome → Bool
is_cancelled cancelled = true
is_cancelled o = false

pub record MessagingRateLimiter : Type 0 where
  pub queue_list : List String
  pub queue_map : Dict (ℕ × List ℕ)
  pub results : Table Outcome
  pub running : Bool

-- `get_instance` makes the limiter and starts its worker.
abbrev pub new_limiter : MessagingRateLimiter
new_limiter = record { queue_list = []; queue_map = []; results = []; running = true }

-- `_start_worker`: a worker that is done is replaced by a new one.
unfoldable pub start_worker : MessagingRateLimiter → MessagingRateLimiter
start_worker q = if q.running then q else record q { running = true }

-- The newer task, and the futures of both.
abbrev pub compacted : ℕ → List ℕ → Option (ℕ × List ℕ) → ℕ × List ℕ
compacted func futures none = (func, futures)
compacted func futures (some (old_func, old_futures)) = (func, old_futures ++ futures)

unfoldable pub enqueue_internal_multi :
    ℕ → List ℕ → String → Bool → MessagingRateLimiter → MessagingRateLimiter
enqueue_internal_multi func futures dedup_key front q =
    let entry = compacted func futures (Dict.get dedup_key q.queue_map) in
    let map = Dict.put dedup_key entry q.queue_map in
    if Dict.has dedup_key q.queue_map then record q { queue_map = map } else record q {
      queue_map = map;
      queue_list = if front then dedup_key ∷ q.queue_list else q.queue_list ++ dedup_key ∷ [];
    }

-- `enqueue` up to its wait for the future.
unfoldable pub enqueue : ℕ → ℕ → String → MessagingRateLimiter → MessagingRateLimiter
unfolding enqueue_internal_multi
enqueue func future dedup_key q = enqueue_internal_multi func (future ∷ []) dedup_key false q

-- `for f in futures: if not f.done(): f.set_result(result)`, or `set_exception`.
unfoldable pub resolve_futures : Outcome → List ℕ → Table Outcome → Table Outcome
resolve_futures outcome [] results = results
resolve_futures outcome (f ∷ fs) results =
    resolve_futures outcome fs (if has f results then results else put f outcome results)

-- A round of the worker: it waits, it fails for want of the key, it runs a task for its futures; or
-- there is no worker.
pub data Round : Type 0 where
  waits key_error stopped : Round
  ran : String → ℕ → List ℕ → Round

-- A task that is cancelled resolves nothing, and ends the worker's loop.
unfoldable pub popped :
    String
    → List String
    → Outcome
    → Option (ℕ × List ℕ)
    → MessagingRateLimiter
    → Round × MessagingRateLimiter
unfolding resolve_futures
popped dedup_key rest outcome none q = (key_error, record q { queue_list = rest })
popped dedup_key rest outcome (some (func, futures)) q = (
  ran dedup_key func futures,
  record {
    queue_list = rest;
    queue_map = Dict.erase dedup_key q.queue_map;
    results = if is_cancelled outcome then q.results else resolve_futures outcome futures q.results;
    running = not (is_cancelled outcome);
  },
)

abbrev pub work_on : List String → Outcome → MessagingRateLimiter → Round × MessagingRateLimiter
work_on [] outcome q = (waits, q)
work_on (dedup_key ∷ rest) outcome q =
    popped dedup_key rest outcome (Dict.get dedup_key q.queue_map) q

-- `outcome` is what the task that is run comes to.
unfoldable pub work : Outcome → MessagingRateLimiter → Round × MessagingRateLimiter
unfolding popped
work outcome q = if q.running then work_on q.queue_list outcome q else (stopped, q)
