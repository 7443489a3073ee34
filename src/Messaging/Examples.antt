-- ===== src/Messaging/Examples.antt =====
-- A text that is edited twice before the worker comes to it, a message to another chat, and a task that
-- is cancelled and ends the worker, which is then started again
-- (messaging/limiter.py).
use claude_unbound.Prelude.{◌≤◌, true, false, ◌≡◌, refl, List, [], ◌∷◌, length, arith}
use claude_unbound.Prelude.Dict.{get, put, erase}
use claude_unbound.Prelude.Table.{has, get as result_of}
use claude_unbound.Messaging.{
  Outcome, result, exception, cancelled, new_limiter, enqueue, work, start_worker, ran, waits,
  stopped, enqueue_internal_multi,
}
use claude_unbound.Messaging.Refinement.{
  Request, enqueues, works, starts, rounds, promised, rounds-eq-promised,
}
use claude_unbound.Messaging.Resolved.{after_requests, after_rounds, enqueue-resolves}

abbrev edits : List Request
edits =
    enqueues 10 (0 ∷ []) "edit" false
    ∷ enqueues 20 (1 ∷ []) "send" false
    ∷ enqueues 11 (2 ∷ []) "edit" false
    ∷ works (result 0)
    ∷ works (exception 0)
    ∷ works (result 1)
    ∷ enqueues 40 (3 ∷ []) "gone" false
    ∷ works cancelled
    ∷ works (result 0)
    ∷ starts
    ∷ []

rounds-eq-promised_example :
    rounds edits new_limiter ≡ promised edits (record { tasks = []; results = []; running = true })
rounds-eq-promised_example = rounds-eq-promised edits

edits-promised :
    promised edits (record { tasks = []; results = []; running = true })
    ≡ ran "edit" 11 (0 ∷ 2 ∷ [])
      ∷ ran "send" 20 (1 ∷ [])
      ∷ waits
      ∷ ran "gone" 40 (3 ∷ [])
      ∷ stopped
      ∷ []
unfolding promised get put
edits-promised = refl

started : (after_requests edits new_limiter).running ≡ true
unfolding after_requests work start_worker enqueue_internal_multi get put erase
started = refl

one_waits :
    length (enqueue 30 7 "late" (after_requests edits new_limiter)).queue_list
    ≤ length {A = Outcome} (exception 0 ∷ [])
unfolding enqueue after_requests work start_worker get put erase
one_waits = omega arith

-- The future of the cancelled task stays pending, and so does a later one without a worker.
cancelled_stays :
    has 3
      (after_requests
        (enqueues 40 (3 ∷ []) "gone" false ∷ works cancelled ∷ works (result 0) ∷ [])
        new_limiter).results
    ≡ false
unfolding after_requests work enqueue_internal_multi get put erase result_of
cancelled_stays = refl

enqueue-resolves_example :
    has 7
      (after_rounds
        (exception 0 ∷ [])
        (enqueue 30 7 "late" (after_requests edits new_limiter))).results
    ≡ true
enqueue-resolves_example =
    enqueue-resolves edits 30 7 "late" (exception 0 ∷ []) started refl one_waits
