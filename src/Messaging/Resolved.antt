-- ===== src/Messaging/Resolved.antt =====
-- The futures of the queue of messaging/limiter.py are resolved when the worker has run long enough and
-- no task that it runs is cancelled.
use claude_unbound.Prelude.{
  ℕ, suc, ◌≤◌, String, Bool, true, false, ◌||◌, not, ◌≡◌, refl, sym, subst, ap, ◌∙◌, Option, none,
  some, List, [], ◌∷◌, ◌++◌, eq_refl, arith, eqb, length, if◌then◌else◌,
}
use claude_unbound.Prelude.Dict.{Dict, get, keys}
use claude_unbound.Prelude.Table
use claude_unbound.Prelude.Table.{Table, has}
use claude_unbound.Messaging.{
  Outcome, MessagingRateLimiter, new_limiter, compacted, enqueue_internal_multi, enqueue,
  resolve_futures, work, is_cancelled, start_worker,
}
use claude_unbound.Messaging.Refinement.{
  Request, enqueues, works, starts, Waiting, start-Represents, put_task, put_task-get,
  promised_work, Represents, new_limiter-Represents, work-Represents, enqueue-Represents,
}

abbrev awaits : ℕ → List ℕ → Bool
awaits f [] = false
awaits f (g ∷ fs) = eqb g f || awaits f fs

awaits-append : (f : ℕ) (fs gs : List ℕ) → awaits f (fs ++ gs) ≡ (awaits f fs || awaits f gs)
awaits-append f [] gs = refl
awaits-append f (g ∷ fs) gs = ground (arith, awaits-append f fs gs)

-- Some waiting task has the future.
abbrev waits_in : ℕ → Dict (ℕ × List ℕ) → Bool
waits_in f [] = false
waits_in f ((k, (func, fs)) ∷ d) = awaits f fs || waits_in f d

-- The futures of a run are done after it, and those that were done stay so.
resolve_futures-has :
    (o : Outcome) (fs : List ℕ) (results : Table Outcome) (f : ℕ)
    → (has f results || awaits f fs) ≡ true
    → has f (resolve_futures o fs results) ≡ true
unfolding resolve_futures
resolve_futures-has o [] results f h = ground arith
resolve_futures-has o (g ∷ fs) results f h =
    resolve_futures-has o fs (if has g results then results else Table.put g o results) f
      (ground (arith, Table.get-put f g o results))

get-waits_in :
    (f : ℕ) (k : String) (func : ℕ) (fs : List ℕ) (d : Dict (ℕ × List ℕ))
    → get k d ≡ some (func, fs)
    → awaits f fs ≡ true
    → waits_in f d ≡ true
unfolding get
get-waits_in f k func fs [] e h = cc
get-waits_in f k func fs ((j, (g, gs)) ∷ d) e h =
    ground (arith, get-waits_in f k func fs d, λ (x : gs ≡ fs). ap (awaits f) x)

-- What the requests and the worker make of the queue.
unfoldable pub after_requests : List Request → MessagingRateLimiter → MessagingRateLimiter
after_requests [] q = q
after_requests (enqueues func futures key front ∷ rs) q =
    after_requests rs (enqueue_internal_multi func futures key front q)
after_requests (starts ∷ rs) q = after_requests rs (start_worker q)
after_requests (works outcome ∷ rs) q = after_requests rs (work outcome q).1

unfoldable pub after_rounds : List Outcome → MessagingRateLimiter → MessagingRateLimiter
after_rounds [] q = q
after_rounds (o ∷ os) q = after_rounds os (work o q).1

after_requests-Represents :
    (rs : List Request) (q : MessagingRateLimiter) (a : Waiting)
    → Represents q a
    → (b : Waiting) × Represents (after_requests rs q) b
unfolding after_requests
after_requests-Represents [] q a r = (a, r)
after_requests-Represents (enqueues func futures key front ∷ rs) q a r =
    after_requests-Represents rs (enqueue_internal_multi func futures key front q)
      (record a { tasks = put_task func futures key front a.tasks })
      (enqueue-Represents func futures key front q a r)
after_requests-Represents (starts ∷ rs) q a r =
    after_requests-Represents rs (start_worker q) (record a { running = true })
      (start-Represents q a r)
after_requests-Represents (works outcome ∷ rs) q a r =
    after_requests-Represents rs (work outcome q).1 (promised_work outcome a).1
      (work-Represents outcome q a.tasks a.results a.running r).1

-- Some outcome is a cancellation.
abbrev pub any_cancelled : List Outcome → Bool
any_cancelled [] = false
any_cancelled (o ∷ os) = is_cancelled o || any_cancelled os

abbrev alive : Dict (ℕ × List ℕ) → Table Outcome → Waiting
alive tasks results = record { tasks = tasks; results = results; running = true }

rounds_resolve :
    (os : List Outcome) (q : MessagingRateLimiter) (tasks : Dict (ℕ × List ℕ))
    (results : Table Outcome) (f : ℕ)
    → Represents q (alive tasks results)
    → any_cancelled os ≡ false
    → length tasks ≤ length os
    → (has f results || waits_in f tasks) ≡ true
    → has f (after_rounds os q).results ≡ true
unfolding after_rounds
rounds_resolve [] q [] results f r ends le h = ground (arith, ap (has f) r.results)
rounds_resolve [] q (e ∷ tasks) results f r ends le h = absurd (omega arith)
rounds_resolve (o ∷ os) q [] results f r ends le h =
    rounds_resolve os (work o q).1 [] results f (work-Represents o q [] results true r).1
      (ground arith) (omega arith) h
rounds_resolve (o ∷ os) q ((key, (func, futures)) ∷ tasks) results f r ends le h =
    let no : is_cancelled o ≡ false = ground arith in
    let next = (work-Represents o q ((key, (func, futures)) ∷ tasks) results true r).1 in
    rounds_resolve os (work o q).1 tasks (resolve_futures o futures results) f
      (subst
        (λ b. Represents (work o q).1 (record {
          tasks = tasks;
          results = if b then results else resolve_futures o futures results;
          running = not b;
        }))
        no next)
      (ground arith) (omega arith) (ground (arith, resolve_futures-has o futures results f))

length-keys : (d : Dict (ℕ × List ℕ)) → length (keys d) ≡ length d
length-keys [] = refl
length-keys (e ∷ d) = ap suc (length-keys d)

compacted-awaits :
    (func future : ℕ) (o : Option (ℕ × List ℕ))
    → awaits future (compacted func (future ∷ []) o).1 ≡ true
compacted-awaits func future none = ground arith
compacted-awaits func future (some (old_func, old_futures)) =
    ground (arith, awaits-append future old_futures (future ∷ []))

-- After any history of requests after which the worker is alive: a future that is enqueued is done, with
-- a result or an exception, once the worker has run as many rounds as tasks wait, provided that none of
-- the tasks that these rounds run is cancelled.
pub enqueue-resolves :
    (rs : List Request) (func future : ℕ) (key : String) (os : List Outcome)
    → (after_requests rs new_limiter).running ≡ true
    → any_cancelled os ≡ false
    → length (enqueue func future key (after_requests rs new_limiter)).queue_list ≤ length os
    → has future (after_rounds os (enqueue func future key (after_requests rs new_limiter))).results
      ≡ true
unfolding enqueue
enqueue-resolves rs func future key os on ends enough =
    let q = after_requests rs new_limiter in
    let (b, r) =
      after_requests-Represents rs new_limiter (record { tasks = []; results = []; running = true })
        new_limiter-Represents in
    let tasks = put_task func (future ∷ []) key false b.tasks in
    let r' = enqueue-Represents func (future ∷ []) key false q b r in
    let entry = compacted func (future ∷ []) (get key b.tasks) in
    let there : get key tasks ≡ some entry =
      put_task-get func (future ∷ []) key false key b.tasks ∙ rw (eq_refl key) refl in
    let waiting : waits_in future tasks ≡ true =
      get-waits_in future key entry.0 entry.1 tasks there
        (compacted-awaits func future (get key b.tasks)) in
    rounds_resolve os (enqueue_internal_multi func (future ∷ []) key false q) tasks b.results future
      (subst
        (λ x.
          Represents (enqueue_internal_multi func (future ∷ []) key false q)
            (record { tasks = tasks; results = b.results; running = x }))
        (sym r.running ∙ on) r')
      ends (omega (arith, ap length r'.order, length-keys tasks, enough)) (ground arith)
