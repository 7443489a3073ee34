-- ===== src/Thinking/Tags.antt =====
-- Where a tag stands in a text, and where it cannot begin, whatever text follows
-- (core/anthropic/thinking.py).
use native.Mathlib.Nat.{zero-add, suc-add}
use claude_unbound.Prelude.{
  ℕ, zero, suc, ◌+◌, ◌≤◌, ◌<◌, true, false, ◌≡◌, ◌≢◌, ◌⊎◌, inl, inr, refl, sym, ap, ◌∙◌, subst,
  none, some, [], ◌∷◌, ◌++◌, arith, length, is_some, Bool-cases, Option-cases, append_assoc,
  append-nil,
}
use claude_unbound.Prelude.Texts.{Text, starts_with, find, rfind, take, drop}
use claude_unbound.Thinking.{may_be_tag}

pub take-drop : (i : ℕ) (s : Text) → take i s ++ drop i s ≡ s
take-drop zero s = refl
take-drop (suc i) [] = refl
take-drop (suc i) (c ∷ s) = ap (λ z. c ∷ z) (take-drop i s)

pub split_more : (j : ℕ) (s more : Text) → s ++ more ≡ take j s ++ (drop j s ++ more)
split_more j s more =
    ap (λ z. z ++ more) (sym (take-drop j s)) ∙ append_assoc (take j s) (drop j s) more

starts_with-splits : (t s : Text) → starts_with t s ≡ true → s ≡ t ++ drop (length t) s
unfolding starts_with
starts_with-splits [] s h = refl
starts_with-splits (c ∷ t) [] h = cc
starts_with-splits (c ∷ t) (d ∷ s) h = ground (arith, starts_with-splits t s)

-- A tag that begins in `s`, with a text after it, is in `s`, or `s` is a beginning of it.
starts_with-cases :
    (t s more : Text)
    → starts_with t (s ++ more) ≡ true
    → (starts_with t s ≡ true) ⊎ ((starts_with s t ≡ true) × (length s < length t))
unfolding starts_with
starts_with-cases [] s more h = inl refl
starts_with-cases (c ∷ t) [] more h = inr (refl, omega arith)
starts_with-cases (c ∷ t) (d ∷ s) more h = ground (arith, starts_with-cases t s more)

rfind-starts_with :
    (c : ℕ) (s t : Text) → starts_with s t ≡ true → rfind c t ≡ none → rfind c s ≡ none
unfolding starts_with rfind
rfind-starts_with c [] t h e = refl
rfind-starts_with c (d ∷ s) [] h e = cc
rfind-starts_with c (d ∷ s) (x ∷ t) h e = ground (arith, rfind-starts_with c s t)

-- The tag begins nowhere in `s`, whatever `more` is.
abbrev pub Clear : Text → Text → Text → Type 0
Clear t [] more = Unit {0}
Clear t (d ∷ s) more = (starts_with t (d ∷ (s ++ more)) ≡ false) × Clear t s more

pub find-rfind : (t s : Text) (i : ℕ) → find (b'<' ∷ t) s ≡ some i → is_some (rfind b'<' s) ≡ true
unfolding find rfind starts_with
find-rfind t [] i e = cc
find-rfind t (d ∷ s) i e = elim (Option-cases (find (b'<' ∷ t) s)) [
  | inl none_later ↦ ground arith
  | inr (j, later) ↦ ground (arith, find-rfind t s j)
]

find-nil : (t : Text) (i : ℕ) → find (b'<' ∷ t) [] ≢ some i
unfolding find starts_with
find-nil t i e = cc

found :
    (t : Text) (d : ℕ) (s : Text) (i : ℕ)
    → find t (d ∷ s) ≡ some i
    → (i ≡ 0) ⊎ ((j : ℕ) × (i ≡ suc j) × (find t s ≡ some j))
unfolding find
found t d s i e = elim (Bool-cases (starts_with t (d ∷ s))) [
  | inl here ↦ inl (ground arith)
  | inr there ↦ elim (Option-cases (find t s)) [
    | inl none_later ↦ absurd (ground arith)
    | inr (j, later) ↦ inr (j, ground arith, later)
  ]
]

-- At a tag that is found stand the tag and what is after it.
pub find-splits : (t s : Text) (i : ℕ) → find t s ≡ some i → drop i s ≡ t ++ drop (i + length t) s
unfolding find
find-splits t [] i e = elim (Bool-cases (starts_with t [])) [
  | inl here ↦
      let zeroth : i ≡ 0 = ground arith in rw (zeroth, zero-add) (starts_with-splits t [] here)
  | inr there ↦ absurd (ground arith)
]
find-splits t (d ∷ s) i e = elim (Bool-cases (starts_with t (d ∷ s))) [
  | inl here ↦
      let zeroth : i ≡ 0 = ground arith in rw (zeroth, zero-add) (starts_with-splits t (d ∷ s) here)
  | inr there ↦ elim (found t d s i e) [
    | inl here ↦ absurd (ground arith)
    | inr (j, at_j, later) ↦ rw (at_j, suc-add) (find-splits t s j later)
  ]
]

absent_later :
    (t : Text) (d : ℕ) (s : Text)
    → find t (d ∷ s) ≡ none
    → (starts_with t (d ∷ s) ≡ false) × (find t s ≡ none)
unfolding find
absent_later t d s e = elim (Bool-cases (starts_with t (d ∷ s))) [
  | inl here ↦ absurd (ground arith)
  | inr there ↦ elim (Option-cases (find t s)) [
    | inl none_later ↦ (there, none_later)
    | inr (k, later) ↦ absurd (ground arith)
  ]
]

-- A text without the tag, and nothing after it.
pub absent-Clear_end : (t s : Text) → find t s ≡ none → Clear t s []
absent-Clear_end t [] e = tt
absent-Clear_end t (d ∷ s) e =
    let (here, later) = absent_later t d s e in
    (ap (λ z. starts_with t (d ∷ z)) (append-nil s) ∙ here, absent-Clear_end t s later)

-- A tag is a `<`, and then none.
module _ (t : Text) (one : rfind b'<' t ≡ none) where
  abbrev tag : Text
  tag = b'<' ∷ t

  -- Another `<` follows in the text, so the tag does not begin here.
  not_here :
      (d : ℕ) (s more : Text)
      → starts_with tag (d ∷ s) ≡ false
      → is_some (rfind b'<' s) ≡ true
      → starts_with tag (d ∷ (s ++ more)) ≡ false
  unfolding starts_with
  not_here d s more absent later =
      ground (arith, starts_with-cases t s more, rfind-starts_with b'<' s t)

  head-later :
      (d : ℕ) (s : Text) (j : ℕ)
      → ((k : ℕ) → find tag (d ∷ s) ≡ some k → suc j ≤ k)
      → (starts_with tag (d ∷ s) ≡ false) × ((k : ℕ) → find tag s ≡ some k → j ≤ k)
  unfolding find
  head-later d s j later = (absent, λ k e. rest absent k e)
    where
      absent : starts_with tag (d ∷ s) ≡ false
      absent = elim (Bool-cases (starts_with tag (d ∷ s))) [
        | inl here ↦ absurd (omega (arith, later 0 (rw here refl)))
        | inr there ↦ there
      ]

      rest : starts_with tag (d ∷ s) ≡ false → (k : ℕ) → find tag s ≡ some k → j ≤ k
      rest a k e = omega (arith, later (suc k) (rw (a, e) refl))

  -- Before the first tag of one kind no tag of another kind that comes later begins.
  pub find-Clear :
      (u s more : Text) (i : ℕ)
      → find (b'<' ∷ u) s ≡ some i
      → ((k : ℕ) → find tag s ≡ some k → i ≤ k)
      → Clear tag (take i s) (drop i s ++ more)
  find-Clear u [] more i e later = absurd (find-nil u i e)
  find-Clear u (d ∷ s) more i e later = elim (found (b'<' ∷ u) d s i e) [
    | inl here ↦ subst (λ i. Clear tag (take i (d ∷ s)) (drop i (d ∷ s) ++ more)) (sym here) tt
    | inr (j, at_j, e') ↦
        let (absent, later') =
          head-later d s j (subst (λ i. (k : ℕ) → find tag (d ∷ s) ≡ some k → i ≤ k) at_j later) in
        subst (λ i. Clear tag (take i (d ∷ s)) (drop i (d ∷ s) ++ more)) (sym at_j)
          (
            ap (λ z. starts_with tag (d ∷ z)) (sym (split_more j s more))
                ∙ not_here d s more absent (find-rfind u s j e'),
            find-Clear u s more j e' later',
          )
  ]

  no_bracket :
      (d : ℕ) (s more : Text)
      → rfind b'<' (d ∷ s) ≡ none
      → (starts_with tag (d ∷ (s ++ more)) ≡ false) × (rfind b'<' s ≡ none)
  unfolding starts_with rfind
  no_bracket d s more none_here = elim (Option-cases (rfind b'<' s)) [
    | inl none_later ↦ ground arith
    | inr (j, later) ↦ absurd (ground arith)
  ]

  last_bracket :
      (d : ℕ) (s : Text) (i : ℕ)
      → rfind b'<' (d ∷ s) ≡ some i
      → ((i ≡ 0) × (rfind b'<' s ≡ none)) ⊎ ((j : ℕ) × (i ≡ suc j) × (rfind b'<' s ≡ some j))
  unfolding rfind
  last_bracket d s i e = elim (Option-cases (rfind b'<' s)) [
    | inl none_later ↦ ground arith
    | inr (j, later) ↦ inr (j, ground arith, later)
  ]

  not_tag :
      (d : ℕ) (s more : Text)
      → starts_with tag (d ∷ s) ≡ false
      → may_be_tag tag (d ∷ s) ≡ false
      → starts_with tag (d ∷ (s ++ more)) ≡ false
  unfolding may_be_tag
  not_tag d s more absent clear = ground (arith, starts_with-cases tag (d ∷ s) more)

  -- Without the tag in the text: it begins nowhere before the last `<`, and there only if what follows
  -- may be the tag.
  pub absent-Clear :
      (s more : Text)
      → find tag s ≡ none
      → (rfind b'<' s ≡ none → Clear tag s more)
        × ((i : ℕ)
            → rfind b'<' s ≡ some i
            → Clear tag (take i s) (drop i s ++ more)
              × (may_be_tag tag (drop i s) ≡ false → Clear tag (drop i s) more))
  absent-Clear [] more e = ((λ r. tt), λ i r. absurd (unfold rfind in (cc)))
  absent-Clear (d ∷ s) more e =
      let (absent, later) = absent_later tag d s e in
      let (bare, at) = absent-Clear s more later in
      (
        λ r. let (here, r') = no_bracket d s more r in (here, bare r'),
        λ i r. elim (last_bracket d s i r) [
          | inl (first, r') ↦
              subst
                (λ i.
                  Clear tag (take i (d ∷ s)) (drop i (d ∷ s) ++ more)
                  × (may_be_tag tag (drop i (d ∷ s)) ≡ false → Clear tag (drop i (d ∷ s)) more))
                (sym first) (tt, λ m. (not_tag d s more absent m, bare r'))
          | inr (j, at_j, r') ↦
              subst
                (λ i.
                  Clear tag (take i (d ∷ s)) (drop i (d ∷ s) ++ more)
                  × (may_be_tag tag (drop i (d ∷ s)) ≡ false → Clear tag (drop i (d ∷ s)) more))
                (sym at_j)
                (
                  (
                    ap (λ z. starts_with tag (d ∷ z)) (sym (split_more j s more))
                        ∙ not_here d s more absent (ap is_some r'),
                    (at j r').0,
                  ),
                  (at j r').1,
                )
        ],
      )
