-- ===== src/Limits/Examples.antt =====
-- Runs of core/rate_limit.py with two acquisitions in ten ticks.
use claude_unbound.Prelude.{◌≤◌, ◌≡◌, refl, none, some, [], ◌∷◌, arith}
use claude_unbound.Limits.{Limiter, new_limiter, attempt, expire, wait_time}
use claude_unbound.Limits.Window.{
  held_in, acquisitions, limiter_after, acquire-strict, acquire-retries,
}

abbrev two_in_ten : Limiter
two_in_ten = record { rate_limit = 2; rate_window = 10; times = [] }

made : new_limiter 2 10 ≡ some two_in_ten
unfolding new_limiter
made = refl

acquisitions_lem : acquisitions (1 ∷ 3 ∷ 5 ∷ 11 ∷ 12 ∷ []) two_in_ten ≡ 1 ∷ 3 ∷ 11 ∷ []
unfolding acquisitions attempt expire wait_time
acquisitions_lem = refl

acquire-strict_example : held_in 10 2 (acquisitions (1 ∷ 3 ∷ 5 ∷ 11 ∷ 12 ∷ []) two_in_ten) ≤ 2
acquire-strict_example =
    acquire-strict 2 10 two_in_ten (1 ∷ 3 ∷ 5 ∷ 11 ∷ 12 ∷ []) made
      (omega arith, (omega arith, (omega arith, (omega arith, (omega arith, tt))))) 2

abbrev full : Limiter
full = record { rate_limit = 2; rate_window = 10; times = 1 ∷ 3 ∷ [] }

refused_at_5 : attempt 5 (limiter_after (1 ∷ 3 ∷ []) two_in_ten) ≡ (full, some 6)
unfolding attempt expire wait_time limiter_after
refused_at_5 = refl

acquire-retries_example : (attempt 12 full).1 ≡ none
acquire-retries_example =
    acquire-retries 2 10 two_in_ten full (1 ∷ 3 ∷ []) 5 6 12 made (omega arith, (omega arith, tt))
      refused_at_5 (omega arith)
