-- ===== src/Sse/Wire.antt =====
-- What a client of the Anthropic stream accepts (core/anthropic/sse.py writes it): content blocks
-- are numbered from 0 in the order of their starts, a delta or a stop is for an open block, and a
-- stop closes it.
use claude_unbound.Prelude.{
  ℕ, ◌+◌, Bool, false, ◌||◌, ◌≡◌, Option, none, some, Option-cases, inl, inr, List, [], ◌∷◌, ◌++◌,
  eqb, if◌then◌else◌,
}
use claude_unbound.Prelude.Table.{pos, negsuc}
use claude_unbound.Sse.{Event, content_block_start, content_block_delta, content_block_stop}

pub record Wire : Type 0 where
  pub next : ℕ
  pub open_at : ℕ → Bool

abbrev pub nothing_sent : Wire
nothing_sent = record { next = 0; open_at = λ i. false }

abbrev pub opened : ℕ → Wire → Wire
opened i w = record { next = w.next + 1; open_at = λ j. eqb i j || w.open_at j }

abbrev pub closed : ℕ → Wire → Wire
closed i w = record w { open_at = λ j. if eqb i j then false else w.open_at j }

unfoldable pub accept : Event → Wire → Option Wire
accept (content_block_start (pos i) block) w = if eqb i w.next then some (opened i w) else none
accept (content_block_start (negsuc i) block) w = none
accept (content_block_delta (pos i) delta) w = if w.open_at i then some w else none
accept (content_block_delta (negsuc i) delta) w = none
accept (content_block_stop (pos i)) w = if w.open_at i then some (closed i w) else none
accept (content_block_stop (negsuc i)) w = none
accept _ w = some w

abbrev pub then_check : Option Wire → (Wire → Option Wire) → Option Wire
then_check none f = none
then_check (some w) f = f w

unfoldable pub check : List Event → Wire → Option Wire
check [] w = some w
check (e ∷ es) w = then_check (accept e w) (check es)

pub check-append :
    (es fs : List Event) (w v : Wire) → check es w ≡ some v → check (es ++ fs) w ≡ check fs v
unfolding check
check-append [] fs w v h = cc
check-append (e ∷ es) fs w v h = elim (Option-cases (accept e w)) [
  | inl a ↦ absurd (rejected (rw a at h))
  | inr (u, a) ↦ rw a (check-append es fs u v (rw a at h))
]
  where
    rejected : none ≡ some v → ⊥
    rejected x = cc

pub check-one : (e : Event) (w v : Wire) → accept e w ≡ some v → check (e ∷ []) w ≡ some v
unfolding check
check-one e w v h = rw h
