-- ===== src/BlockPolicy/Sound.antt =====
-- What is known of the state of core/anthropic/native_sse_block_policy.py beside what its client has
-- seen, and what leaves it so.
use claude_unbound.Prelude.{
  ℕ, true, ◌||◌, ◌≡◌, refl, subst, some, List, [], ◌∷◌, map, arith, eqb, is_some, Bool-cases, inl,
  inr,
}
use claude_unbound.Prelude.Table.{Table, get, put, get-put}
use claude_unbound.Sse.Wire.{Wire, check}
use claude_unbound.Sse.Blocks.{Agrees}
use claude_unbound.BlockPolicy.State.{
  Upstream, Sent, Answer, nothing, UpstreamBlockState, PolicyState, holds, add,
}
use claude_unbound.BlockPolicy.Client.{as_event, blocks}
use claude_unbound.BlockPolicy.Orderly.{renumbered}

pub record Sound (seen : List ℕ) (s : PolicyState) (w : Wire) : Type 0 where
  pub agrees : Agrees (blocks s.next_index s.by_upstream) w
  pub keys : (i : ℕ) → is_some (get i s.by_upstream) ≡ true → holds i seen ≡ true
  pub known :
      (i : ℕ)
      → holds i seen ≡ true
      → (holds i s.dropped_indexes || is_some (get i s.by_upstream)) ≡ true

-- The event is handled: the client accepts what goes out for it.
abbrev pub IsHandled : List ℕ → Upstream → Wire → PolicyState × Answer → Type 0
IsHandled seen e w (s, a) =
    (out : List Sent) × (renumbered e a ≡ some out)
    × (v : Wire) × (check (map as_event out) w ≡ some v)
    × Sound seen s v

pub silent :
    (seen : List ℕ) (e : Upstream) (s : PolicyState) (w : Wire)
    → Sound seen s w
    → IsHandled seen e w (s, nothing)
silent seen e s w sound = ([], refl, w, unfold check in refl, sound)

holds_same : (i j : ℕ) (l : List ℕ) → holds i l ≡ true → eqb i j ≡ true → holds j l ≡ true
unfolding holds
holds_same i j l h e = ground arith

holds-add : (i j : ℕ) (l : List ℕ) → holds j (add i l) ≡ (eqb i j || holds j l)
unfolding holds
holds-add i j l = elim (Bool-cases (holds i l)) [
  | inl h ↦ rw h (ground (arith, holds_same i j l))
  | inr h ↦ rw h refl
]

-- The keys after a segment is opened.
pub opened_keys :
    (i : ℕ) (seg : UpstreamBlockState) (t : Table UpstreamBlockState) (seen dropped : List ℕ)
    → ((j : ℕ) → is_some (get j t) ≡ true → holds j seen ≡ true)
    → ((j : ℕ) → holds j seen ≡ true → (holds j dropped || is_some (get j t)) ≡ true)
    → ((j : ℕ) → is_some (get j (put i seg t)) ≡ true → holds j (i ∷ seen) ≡ true)
      × ((j : ℕ)
          → holds j (i ∷ seen) ≡ true
          → (holds j dropped || is_some (get j (put i seg t))) ≡ true)
unfolding holds
opened_keys i seg t seen dropped keys known = (
  (λ j h. ground (arith, get-put j i seg t, keys j)),
  (λ j h. ground (arith, get-put j i seg t, known j)),
)

module _ (seen : List ℕ) (s : PolicyState) (w : Wire) (sound : Sound seen s w) where
  -- An index that is dropped or has a segment may be counted among the seen.
  pub widened :
      (i : ℕ)
      → (holds i s.dropped_indexes || is_some (get i s.by_upstream)) ≡ true
      → Sound (i ∷ seen) s w
  unfolding holds
  widened i there = record {
    agrees = sound.agrees;
    keys = λ j h. ground (arith, sound.keys j);
    known = λ j h. elim (Bool-cases (eqb i j)) [
      | inl e ↦
          let same : i ≡ j = ground arith in
          subst (λ k. (holds k s.dropped_indexes || is_some (get k s.by_upstream)) ≡ true) same
            there
      | inr e ↦ sound.known j (rw e at h)
    ];
  }

  -- Stops that are no longer awaited say nothing of the blocks.
  pub unawaited : (stops : List ℕ) → Sound seen (record s { pending_suppressed_stops = stops }) w
  unawaited stops = record { agrees = sound.agrees; keys = sound.keys; known = sound.known }

  pub dropped :
      (i : ℕ) → Sound (i ∷ seen) (record s { dropped_indexes = add i s.dropped_indexes }) w
  unfolding holds
  dropped i = record {
    agrees = sound.agrees;
    keys = λ j h. ground (arith, sound.keys j);
    known = λ j h. rw (holds-add i j s.dropped_indexes) (ground (arith, sound.known j));
  }
