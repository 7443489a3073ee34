-- ===== src/Messaging/Refinement.antt =====
-- The queue of messaging/limiter.py is one dictionary in the order of its keys: what the worker runs,
-- and for which futures, is what that dictionary says.
use claude_unbound.Prelude.{
  ℕ, String, Bool, true, false, ◌≡◌, refl, sym, ap, ap₂, ◌∙◌, subst, Option, none, some, List, [],
  not, ◌∷◌, ◌++◌, ◌==◌, eq_iff, eq_refl, arith, elem, IsDistinct, IsDistinct-snoc, if◌then◌else◌,
  Bool-cases, inl, inr,
}
use claude_unbound.Prelude.Dict.{Dict, get, put, has, keys, get-put, get-erase, has-elem}
use claude_unbound.Prelude.Table.{Table}
use claude_unbound.Messaging.{
  Outcome, MessagingRateLimiter, new_limiter, compacted, enqueue_internal_multi, resolve_futures,
  Round, waits, ran, stopped, is_cancelled, start_worker, popped, work_on, work,
}

-- What the platform and the worker ask for.
pub data Request : Type 0 where
  enqueues : ℕ → List ℕ → String → Bool → Request
  works : Outcome → Request
  starts : Request

unfoldable pub rounds : List Request → MessagingRateLimiter → List Round
rounds [] q = []
rounds (enqueues func futures key front ∷ rs) q =
    rounds rs (enqueue_internal_multi func futures key front q)
rounds (starts ∷ rs) q = rounds rs (start_worker q)
rounds (works outcome ∷ rs) q = let (r, q') = work outcome q in r ∷ rounds rs q'

-- The waiting tasks in the order in which they are run, the futures that are done, and whether a worker
-- is alive.
pub record Waiting : Type 0 where
  pub tasks : Dict (ℕ × List ℕ)
  pub results : Table Outcome
  pub running : Bool

abbrev pub put_task : ℕ → List ℕ → String → Bool → Dict (ℕ × List ℕ) → Dict (ℕ × List ℕ)
put_task func futures key front tasks =
    let entry = compacted func futures (get key tasks) in
    if has key tasks
    then put key entry tasks
    else if front
    then (key, entry) ∷ tasks
    else put key entry tasks

-- The futures that are done after a task has run for them.
abbrev pub settled : Outcome → List ℕ → Table Outcome → Table Outcome
settled outcome futures results =
    if is_cancelled outcome then results else resolve_futures outcome futures results

abbrev pub promised_run : Outcome → Waiting → Round × Waiting
promised_run outcome a = elim a.tasks [
  | [] ↦ (waits, a)
  | (key, (func, futures)) ∷ tasks ↦ (
    ran key func futures,
    record {
      tasks = tasks;
      results = settled outcome futures a.results;
      running = not (is_cancelled outcome);
    },
  )
]

abbrev pub promised_work : Outcome → Waiting → Round × Waiting
promised_work outcome a = if a.running then promised_run outcome a else (stopped, a)

-- The rounds that the dictionary promises; none of them fails for want of a key.
unfoldable pub promised : List Request → Waiting → List Round
promised [] a = []
promised (enqueues func futures key front ∷ rs) a =
    promised rs (record a { tasks = put_task func futures key front a.tasks })
promised (starts ∷ rs) a = promised rs (record a { running = true })
promised (works outcome ∷ rs) a = let (r, a') = promised_work outcome a in r ∷ promised rs a'

pub record Represents (q : MessagingRateLimiter) (a : Waiting) : Type 0 where
  pub order : q.queue_list ≡ keys a.tasks
  pub distinct : IsDistinct (keys a.tasks)
  pub same : (k : String) → get k q.queue_map ≡ get k a.tasks
  pub results : q.results ≡ a.results
  pub running : q.running ≡ a.running

keys-put :
    (k : String) (v : ℕ × List ℕ) (d : Dict (ℕ × List ℕ))
    → keys (put k v d) ≡ (if has k d then keys d else keys d ++ k ∷ [])
unfolding get put
keys-put k v [] = refl
keys-put k v ((j, w) ∷ d) = ground (arith, keys-put k v d)

-- A task that is put, whether its key waits or not.
module _ (func : ℕ) (futures : List ℕ) (key : String) (front : Bool) where
  pub put_task-get :
      (j : String) (d : Dict (ℕ × List ℕ))
      → get j (put_task func futures key front d)
        ≡ (if key == j then some (compacted func futures (get key d)) else get j d)
  unfolding get
  put_task-get j d = ground (arith, get-put j key (compacted func futures (get key d)) d)

  put_task-keys :
      (d : Dict (ℕ × List ℕ))
      → keys (put_task func futures key front d)
        ≡ (if has key d then keys d else if front then key ∷ keys d else keys d ++ key ∷ [])
  put_task-keys d = elim (Bool-cases (has key d)) [
    | inl old ↦ rw old (keys-put key (compacted func futures (get key d)) d ∙ rw old refl)
    | inr new ↦ rw new (at_end front new)
  ]
    where
      at_end :
          (front : Bool)
          → has key d ≡ false
          → keys (
              if front
              then (key, compacted func futures (get key d)) ∷ d
              else put key (compacted func futures (get key d)) d)
            ≡ (if front then key ∷ keys d else keys d ++ key ∷ [])
      at_end true new = refl
      at_end false new = keys-put key (compacted func futures (get key d)) d ∙ rw new refl

  put_task-IsDistinct :
      (d : Dict (ℕ × List ℕ))
      → IsDistinct (keys d)
      → IsDistinct (keys (put_task func futures key front d))
  put_task-IsDistinct d distinct =
      subst IsDistinct (sym (put_task-keys d))
        (ground (arith, has-elem key d, IsDistinct-snoc key (keys d) distinct))

  enqueue-order :
      (q : MessagingRateLimiter)
      → (enqueue_internal_multi func futures key front q).queue_list ≡ (
          if has key q.queue_map
          then q.queue_list
          else if front
          then key ∷ q.queue_list
          else q.queue_list ++ key ∷ [])
  unfolding enqueue_internal_multi
  enqueue-order q = elim (Bool-cases (has key q.queue_map)) [
    | inl old ↦ rw old refl
    | inr new ↦ rw new refl
  ]

  enqueue-map :
      (q : MessagingRateLimiter)
      → (enqueue_internal_multi func futures key front q).queue_map
        ≡ put key (compacted func futures (get key q.queue_map)) q.queue_map
  unfolding enqueue_internal_multi
  enqueue-map q = ground arith

  enqueue-results :
      (q : MessagingRateLimiter)
      → (enqueue_internal_multi func futures key front q).results ≡ q.results
  unfolding enqueue_internal_multi
  enqueue-results q = ground arith

  enqueue-running :
      (q : MessagingRateLimiter)
      → (enqueue_internal_multi func futures key front q).running ≡ q.running
  unfolding enqueue_internal_multi
  enqueue-running q = ground arith

  pub enqueue-Represents :
      (q : MessagingRateLimiter) (a : Waiting)
      → Represents q a
      → Represents
          (enqueue_internal_multi func futures key front q)
          (record a { tasks = put_task func futures key front a.tasks })
  enqueue-Represents q a r = record {
    order = enqueue-order q ∙ rw (r.same key, r.order) refl ∙ sym (put_task-keys a.tasks);
    distinct = put_task-IsDistinct a.tasks r.distinct;
    same = λ j.
        ap (get j) (enqueue-map q)
        ∙ get-put j key (compacted func futures (get key q.queue_map)) q.queue_map
        ∙ rw (r.same key, r.same j) refl
        ∙ sym (put_task-get j a.tasks);
    results = enqueue-results q ∙ r.results;
    running = enqueue-running q ∙ r.running;
  }

get_first : (k : String) (v : ℕ × List ℕ) (d : Dict (ℕ × List ℕ)) → get k ((k, v) ∷ d) ≡ some v
unfolding get
get_first k v d = ground (arith, eq_refl k)

rest_same :
    (k : String) (v : ℕ × List ℕ) (d : Dict (ℕ × List ℕ))
    → elem k (keys d) ≡ false
    → (j : String) {o : Option (ℕ × List ℕ)} → o ≡ get j ((k, v) ∷ d)
    → (if k == j then none else o) ≡ get j d
unfolding get
rest_same k v d h j e = ground (arith, has-elem k d, eq_iff k j)

pub start-Represents :
    (q : MessagingRateLimiter) (a : Waiting)
    → Represents q a
    → Represents (start_worker q) (record a { running = true })
unfolding start_worker
start-Represents q a r = record {
  order = ground (arith, r.order);
  distinct = r.distinct;
  same = λ k. ap (get k) (ground arith) ∙ r.same k;
  results = ground (arith, r.results);
  running = ground arith;
}

-- A round of the worker.
pub work-Represents :
    (outcome : Outcome) (q : MessagingRateLimiter) (tasks : Dict (ℕ × List ℕ))
    (results : Table Outcome) (running : Bool)
    → let a : Waiting = record { tasks = tasks; results = results; running = running } in
      Represents q a
      → ((work outcome q).0 ≡ (promised_work outcome a).0)
        × Represents (work outcome q).1 (promised_work outcome a).1
unfolding work
work-Represents outcome q tasks results false r =
    let done : work outcome q ≡ (stopped, q) =
      ap (λ b. if b then work_on q.queue_list outcome q else (stopped, q)) r.running in
    subst
      (λ (z : Round × MessagingRateLimiter).
        (z.0 ≡ stopped)
        × Represents z.1 (record { tasks = tasks; results = results; running = false }))
      (sym done) (refl, r)
work-Represents outcome q [] results true r =
    let done : work outcome q ≡ (waits, q) =
      ap (λ b. if b then work_on q.queue_list outcome q else (stopped, q)) r.running
      ∙ ap (λ l. work_on l outcome q) r.order in
    subst
      (λ (z : Round × MessagingRateLimiter).
        (z.0 ≡ waits) × Represents z.1 (record { tasks = []; results = results; running = true }))
      (sym done) (refl, r)
work-Represents outcome q ((key, (func, futures)) ∷ tasks) results true r =
    let there : get key q.queue_map ≡ some (func, futures) =
      r.same key ∙ get_first key (func, futures) tasks in
    let done =
      ap (λ b. if b then work_on q.queue_list outcome q else (stopped, q)) r.running
      ∙ ap (λ l. work_on l outcome q) r.order
      ∙ ap (λ o. popped key (keys tasks) outcome o q) there in
    subst
      (λ (z : Round × MessagingRateLimiter).
        (z.0 ≡ ran key func futures)
        × Represents z.1 (record {
          tasks = tasks;
          results = settled outcome futures results;
          running = not (is_cancelled outcome);
        }))
      (sym done)
      (
        unfold popped in refl,
        unfold popped in
            record {
              order = refl;
              distinct = r.distinct.1;
              same = λ j.
                  get-erase j key q.queue_map
                  ∙ rest_same key (func, futures) tasks r.distinct.0 j (r.same j);
              results = ap (settled outcome futures) r.results;
              running = refl;
            },
      )

rounds-Represents :
    (rs : List Request) (q : MessagingRateLimiter) (a : Waiting)
    → Represents q a
    → rounds rs q ≡ promised rs a
unfolding rounds promised
rounds-Represents [] q a r = refl
rounds-Represents (enqueues func futures key front ∷ rs) q a r =
    rounds-Represents rs (enqueue_internal_multi func futures key front q)
      (record a { tasks = put_task func futures key front a.tasks })
      (enqueue-Represents func futures key front q a r)
rounds-Represents (starts ∷ rs) q a r =
    rounds-Represents rs (start_worker q) (record a { running = true }) (start-Represents q a r)
rounds-Represents (works outcome ∷ rs) q a r =
    let (same, r') = work-Represents outcome q a.tasks a.results a.running r in
    ap₂ ◌∷◌ same (rounds-Represents rs (work outcome q).1 (promised_work outcome a).1 r')

pub new_limiter-Represents :
    Represents new_limiter (record { tasks = []; results = []; running = true })
new_limiter-Represents = record {
  order = refl;
  distinct = tt;
  same = λ k. refl;
  results = refl;
  running = refl;
}

-- What the worker runs, for which futures and in which order, for every history of requests, is what
-- one dictionary in the order of its keys promises: a task that waits for a key is replaced in its place
-- by a newer one, which takes its futures over; and the worker never fails for want of a key. A task
-- that is cancelled ends the worker, and nothing is run until it is started again.
pub rounds-eq-promised :
    (rs : List Request)
    → rounds rs new_limiter ≡ promised rs (record { tasks = []; results = []; running = true })
rounds-eq-promised rs =
    rounds-Represents rs new_limiter (record { tasks = []; results = []; running = true })
      new_limiter-Represents
