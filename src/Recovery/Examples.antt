-- ===== src/Recovery/Examples.antt =====
-- Runs of the holdback buffer of core/anthropic/stream_recovery.py.
use claude_unbound.Prelude.{ℕ, ◌+◌, ◌<◌, String, false, ◌≡◌, refl, List, [], ◌∷◌, ◌++◌, map}
use claude_unbound.Recovery.{RecoveryHoldbackBuffer, new_buffer, flush, push}
use claude_unbound.Recovery.Holdback.{Push, pushes, total, first_of, pushes-lossless, push-bounded}

abbrev three_bytes : String → ℕ
three_bytes e = 3

abbrev a_and_b : List Push
a_and_b =
    record { first = 1; now = 1; event = "a" } ∷ record { first = 2; now = 3; event = "b" } ∷ []

pushes-lossless_example :
    (pushes three_bytes a_and_b (new_buffer 75 6)).1
      ++ (flush (pushes three_bytes a_and_b (new_buffer 75 6)).0).1
    ≡ map (λ (p : Push). p.event) a_and_b
pushes-lossless_example = pushes-lossless three_bytes 75 6 a_and_b

-- The second event reaches the cap.
committed_lem : (pushes three_bytes a_and_b (new_buffer 75 6)).1 ≡ "a" ∷ "b" ∷ []
unfolding pushes push flush new_buffer
committed_lem = refl

abbrev first_a : List Push
first_a = record { first = 1; now = 1; event = "a" } ∷ []

abbrev held : RecoveryHoldbackBuffer
held = (push three_bytes 2 3 "b" (pushes three_bytes first_a (new_buffer 75 9)).0).0

uncommitted : held.committed ≡ false
unfolding pushes push flush new_buffer
uncommitted = refl

push-bounded_example :
    (held.events ≡ map (λ (p : Push). p.event) first_a ++ "b" ∷ [])
    × (total three_bytes (map (λ (p : Push). p.event) first_a ++ "b" ∷ []) < 9)
    × (3 < first_of first_a 2 + 75)
push-bounded_example = push-bounded three_bytes 75 9 first_a 2 3 "b" uncommitted
