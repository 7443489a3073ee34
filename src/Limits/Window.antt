-- ===== src/Limits/Window.antt =====
-- No window holds more acquisitions than the limit (core/rate_limit.py).
use claude_unbound.Prelude.{
  ℕ, suc, ◌+◌, ◌<◌, ◌≤◌, false, ◌&&◌, ◌≡◌, refl, sym, ap, ◌∙◌, Option, none, some, List, [], ◌∷◌,
  ◌++◌, arith, leb, ltb, length, length-append, append_assoc, append-nil, Bool-cases, subst, inl,
  inr, if◌then◌else◌,
}
use claude_unbound.Limits.{Limiter, new_limiter, expire, wait_time, attempt}

-- How many times lie in the window of the given length that starts at `x`.
unfoldable pub held_in : ℕ → ℕ → List ℕ → ℕ
held_in window x [] = 0
held_in window x (t ∷ ts) =
    let rest = held_in window x ts in if leb x t && ltb t (x + window) then suc rest else rest

abbrev pub acquired_at : ℕ → Option ℕ → List ℕ
acquired_at now none = now ∷ []
acquired_at now (some w) = []

-- The rounds of `acquire` of all callers, at the times at which they hold the lock, and the times at
-- which one acquired.
unfoldable pub acquisitions : List ℕ → Limiter → List ℕ
acquisitions [] l = []
acquisitions (now ∷ nows) l =
    let (l', wait) = attempt now l in acquired_at now wait ++ acquisitions nows l'

unfoldable pub limiter_after : List ℕ → Limiter → Limiter
limiter_after [] l = l
limiter_after (now ∷ nows) l = limiter_after nows (attempt now l).0

-- The clock does not go back.
abbrev pub IsMonotone : ℕ → List ℕ → Type 0
IsMonotone t [] = Unit {0}
IsMonotone t (now ∷ nows) = (t ≤ now) × IsMonotone now nows

held_in-append :
    (window x : ℕ) (ts us : List ℕ)
    → held_in window x (ts ++ us) ≡ held_in window x ts + held_in window x us
unfolding held_in
held_in-append window x [] us = omega arith
held_in-append window x (t ∷ ts) us = ground (arith, held_in-append window x ts us)

held_in-le : (window x : ℕ) (ts : List ℕ) → held_in window x ts ≤ length ts
unfolding held_in
held_in-le window x [] = omega arith
held_in-le window x (t ∷ ts) = ground (arith, held_in-le window x ts)

-- Every one of the times is out of the window before `now`.
abbrev AreOld : ℕ → ℕ → List ℕ → Type 0
AreOld window now [] = Unit {0}
AreOld window now (t ∷ ts) = (t + window ≤ now) × AreOld window now ts

AreOld-later :
    (window now later : ℕ) (ts : List ℕ)
    → now ≤ later
    → AreOld window now ts
    → AreOld window later ts
AreOld-later window now later [] le old = tt
AreOld-later window now later (t ∷ ts) le old =
    (omega (arith, old.0), AreOld-later window now later ts le old.1)

AreOld-append :
    (window now : ℕ) (ts us : List ℕ)
    → AreOld window now ts
    → AreOld window now us
    → AreOld window now (ts ++ us)
AreOld-append window now [] us a b = b
AreOld-append window now (t ∷ ts) us a b = (a.0, AreOld-append window now ts us a.1 b)

held_in-AreOld :
    (window now x : ℕ) (ts : List ℕ)
    → now < x + window
    → AreOld window now ts
    → held_in window x ts ≡ 0
unfolding held_in
held_in-AreOld window now x [] lt old = refl
held_in-AreOld window now x (t ∷ ts) lt old =
    ground (arith, held_in-AreOld window now x ts lt, old.0)

expire-splits :
    (window now : ℕ) (ts : List ℕ)
    → (gone : List ℕ) × (ts ≡ gone ++ expire window now ts) × AreOld window now gone
unfolding expire
expire-splits window now [] = ([], refl, tt)
expire-splits window now (t ∷ ts) = elim (Bool-cases (leb (t + window) now)) [
  | inl old ↦
      let (gone, e, a) = expire-splits window now ts in
      (t ∷ gone, rw old (ap (λ z. t ∷ z) e), (ground arith, a))
  | inr young ↦ ([], rw young refl, tt)
]

-- What was acquired: the times that are gone, which are old, and those of the deque.
record IsStrict (now : ℕ) (log : List ℕ) (l : Limiter) : Type 0 where
  gone : List ℕ
  logged : log ≡ gone ++ l.times
  old : AreOld l.rate_window now gone
  bounded : (x : ℕ) → held_in l.rate_window x log ≤ l.rate_limit
  few : length l.times ≤ l.rate_limit

module _ (t now : ℕ) (log : List ℕ) (l : Limiter) (s : IsStrict t log l) (le : t ≤ now) where
  abbrev kept : List ℕ
  kept = expire l.rate_window now l.times

  split : (gone : List ℕ) × (log ≡ gone ++ kept) × AreOld l.rate_window now gone
  split =
      let (gone, e, a) = expire-splits l.rate_window now l.times in
      (
        s.gone ++ gone,
        s.logged ∙ ap (λ z. s.gone ++ z) e ∙ sym (append_assoc s.gone gone kept),
        AreOld-append l.rate_window now s.gone gone
            (AreOld-later l.rate_window t now s.gone le s.old) a,
      )

  grown :
      length kept < l.rate_limit
      → (x : ℕ) → held_in l.rate_window x (log ++ now ∷ []) ≤ l.rate_limit
  unfolding held_in
  grown lt x =
      let (gone, e, old) = split in
      rw (held_in-append l.rate_window x log (now ∷ []))
        (elim (Bool-cases (leb x now && ltb now (x + l.rate_window))) [
          | inr out ↦ rw out (omega (arith, s.bounded x))
          | inl inside ↦
              let zero_old : held_in l.rate_window x gone ≡ 0 =
                held_in-AreOld l.rate_window now x gone (ground arith) old in
              let all : held_in l.rate_window x log ≡ held_in l.rate_window x kept =
                ap (held_in l.rate_window x) e
                ∙ held_in-append l.rate_window x gone kept
                ∙ omega (arith, zero_old) in
              rw (inside, all) (omega (arith, held_in-le l.rate_window x kept))
        ])

  expire-le : length kept ≤ length l.times
  expire-le =
      let (gone, e, a) = expire-splits l.rate_window now l.times in
      omega (arith, ap length e, length-append gone kept)

  attempt-IsStrict :
      let (l', wait) = attempt now l in
      IsStrict now (log ++ acquired_at now wait) l'
      × (l'.rate_window ≡ l.rate_window)
      × (l'.rate_limit ≡ l.rate_limit)
  unfolding attempt
  attempt-IsStrict = elim (Bool-cases (ltb (length kept) l.rate_limit)) [
    | inl room ↦
        let (gone, e, old) = split in
        rw room (
          record {
            gone = gone;
            logged = ap (λ z. z ++ now ∷ []) e ∙ append_assoc gone kept (now ∷ []);
            old = old;
            bounded = grown (ground arith);
            few = rw (length-append kept (now ∷ [])) (ground arith);
          },
          refl,
          refl,
        )
    | inr full ↦
        let (gone, e, old) = split in
        rw full (
          record {
            gone = gone;
            logged = append-nil log ∙ e;
            old = old;
            bounded = λ x. rw (append-nil log) (s.bounded x);
            few = omega (arith, expire-le, s.few);
          },
          refl,
          refl,
        )
  ]

acquisitions-bounded :
    (t : ℕ) (log nows : List ℕ) (l : Limiter)
    → IsStrict t log l
    → IsMonotone t nows
    → (x : ℕ) → held_in l.rate_window x (log ++ acquisitions nows l) ≤ l.rate_limit
unfolding acquisitions
acquisitions-bounded t log [] l s m x = rw (append-nil log) (s.bounded x)
acquisitions-bounded t log (now ∷ nows) l s m x =
    let l' = (attempt now l).0 in
    let new = acquired_at now (attempt now l).1 in
    let (next, same_window, same_limit) = attempt-IsStrict t now log l s m.0 in
    let rest = acquisitions-bounded now (log ++ new) nows l' next m.1 x in
    let all = append_assoc log new (acquisitions nows l') in
    let bound : held_in l.rate_window x (log ++ (new ++ acquisitions nows l')) ≤ l.rate_limit =
      omega (
        arith,
        same_limit,
        ap (λ w. held_in w x (log ++ (new ++ acquisitions nows l'))) same_window,
        ap (held_in l'.rate_window x) all,
        rest,
      ) in
    bound

-- A new limiter has acquired nothing.
new-IsStrict :
    (rate_limit rate_window : ℕ) (l : Limiter)
    → new_limiter rate_limit rate_window ≡ some l
    → IsStrict 0 [] l × (1 ≤ l.rate_limit)
unfolding new_limiter held_in
new-IsStrict rate_limit rate_window l e =
    let (new, positive) = made in
    subst (λ m. IsStrict 0 [] m × (1 ≤ m.rate_limit)) new
      (
        record {
          gone = [];
          logged = refl;
          old = tt;
          bounded = λ x. omega arith;
          few = omega arith;
        },
        positive,
      )
  where
    made :
        ((record { rate_limit = rate_limit; rate_window = rate_window; times = [] }) ≡ l)
        × (1 ≤ rate_limit)
    made = ground arith

-- If the clock does not go back, then among all the acquisitions of a new limiter at most `rate_limit`
-- lie in any window of `rate_window` ticks, wherever it starts.
pub acquire-strict :
    (rate_limit rate_window : ℕ) (l : Limiter) (nows : List ℕ)
    → new_limiter rate_limit rate_window ≡ some l
    → IsMonotone 0 nows
    → (x : ℕ) → held_in l.rate_window x (acquisitions nows l) ≤ l.rate_limit
acquire-strict rate_limit rate_window l nows e m =
    acquisitions-bounded 0 [] nows l (new-IsStrict rate_limit rate_window l e).0 m

after-few :
    (t : ℕ) (log nows : List ℕ) (l : Limiter)
    → IsStrict t log l
    → 1 ≤ l.rate_limit
    → IsMonotone t nows
    → (length (limiter_after nows l).times ≤ (limiter_after nows l).rate_limit)
      × (1 ≤ (limiter_after nows l).rate_limit)
unfolding limiter_after
after-few t log [] l s positive m = (s.few, positive)
after-few t log (now ∷ nows) l s positive m =
    let (next, same_window, same_limit) = attempt-IsStrict t now log l s m.0 in
    after-few now (log ++ acquired_at now (attempt now l).1) nows (attempt now l).0 next
      (omega (arith, same_limit)) m.1

expire_le : (window now : ℕ) (ts : List ℕ) → length (expire window now ts) ≤ length ts
unfolding expire
expire_le window now [] = omega arith
expire_le window now (t ∷ ts) = ground (arith, expire_le window now ts)

kept_full :
    (window limit now later w : ℕ) (ts : List ℕ)
    → 1 ≤ limit
    → length ts ≤ limit
    → ltb (length ts) limit ≡ false
    → wait_time window now ts ≡ w
    → now + w ≤ later
    → length (expire window later ts) < limit
unfolding expire wait_time
kept_full window limit now later w [] positive few full e le = absurd (ground arith)
kept_full window limit now later w (t ∷ ts) positive few full e le =
    ground (arith, expire_le window later ts)

refused :
    (now w : ℕ) (l l' : Limiter)
    → attempt now l ≡ (l', some w)
    → (ltb (length (expire l.rate_window now l.times)) l.rate_limit ≡ false)
      × (l' ≡ record l { times = expire l.rate_window now l.times })
      × (wait_time l.rate_window now (expire l.rate_window now l.times) ≡ w)
unfolding attempt
refused now w l l' e = ground arith

acquires :
    (later : ℕ) (l : Limiter)
    → length (expire l.rate_window later l.times) < l.rate_limit
    → (attempt later l).1 ≡ none
unfolding attempt
acquires later l lt = ground arith

-- A caller that a limiter makes wait acquires in its next round, if it holds the lock first once the
-- time to wait is over: whatever rounds came before, and whenever, after that time, its round is.
pub acquire-retries :
    (rate_limit rate_window : ℕ) (new l' : Limiter) (nows : List ℕ) (now w later : ℕ)
    → new_limiter rate_limit rate_window ≡ some new
    → IsMonotone 0 nows
    → attempt now (limiter_after nows new) ≡ (l', some w)
    → now + w ≤ later
    → (attempt later l').1 ≡ none
acquire-retries rate_limit rate_window new l' nows now w later made m e le =
    let l = limiter_after nows new in
    let (strict, positive) = new-IsStrict rate_limit rate_window new made in
    let (few, positive') = after-few 0 [] nows new strict positive m in
    let (full, same, waits) = refused now w l l' e in
    subst (λ k. (attempt later k).1 ≡ none) (sym same)
      (acquires later (record l { times = expire l.rate_window now l.times })
        (kept_full l.rate_window l.rate_limit now later w (expire l.rate_window now l.times)
          positive' (omega (arith, expire_le l.rate_window now l.times)) full waits le))
