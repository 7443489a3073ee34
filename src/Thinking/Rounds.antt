-- ===== src/Thinking/Rounds.antt =====
-- One round of the think parser's loop: it gives out what the reference gives for what it takes from
-- the buffer, and a round that leaves the buffer as it was leaves no tag in it
-- (core/anthropic/thinking.py).
use claude_unbound.Prelude.{
  ℕ, zero, suc, ◌+◌, ◌≤◌, ◌<◌, Bool, true, false, ◌||◌, ◌≡◌, ◌⊎◌, inl, inr, refl, sym, ap, ap₂, ◌∙◌,
  Option, none, some, ◌∷◌, ◌++◌, arith, length, length-append, Bool-cases, append_assoc,
}
use claude_unbound.Prelude.Texts.{Text, codes, find, rfind, take, drop}
use claude_unbound.Thinking.{
  open_tag, close_tag, may_be_tag, ContentChunk, chunk, is_before, emit_until, held_outside,
  held_inside, after_orphan, no_orphan, outside_at, inside_at, round, type_of,
}
use claude_unbound.Thinking.Tags.{split_more, take-drop, find-Clear, absent-Clear, find-splits}
use claude_unbound.Thinking.Plain.{
  plain, letters, letters_of, letters_of-chunk, letters-append, Free, plain-close, plain-open,
  plain-Free,
}

-- No tag that counts is in the buffer.
abbrev pub IsQuiet : Bool → Text → Type 0
IsQuiet inside s = (find close_tag s ≡ none) × (inside ≡ false → find open_tag s ≡ none)

abbrev pub IsRound : Bool → Text → Text × Bool × Option ContentChunk → Type 0
IsRound inside s (rest, inside', out) =
    ((more : Text) → plain inside 0 (s ++ more) ≡ letters_of out ++ plain inside' 0 (rest ++ more))
    × ((length rest < length s) ⊎ ((out ≡ none) × (rest ≡ s) × IsQuiet inside' rest))

cut_at :
    (inside : Bool) (i : ℕ) (s more : Text)
    → Free inside (take i s) (drop i s ++ more)
    → plain inside 0 (s ++ more)
      ≡ letters (type_of inside) (take i s) ++ plain inside 0 (drop i s ++ more)
cut_at inside i s more free =
    ap (plain inside 0) (split_more i s more) ∙ plain-Free inside (take i s) (drop i s ++ more) free

-- The text before the tag is free of tags, and the tag is passed over.
before_tag :
    (inside inside' : Bool) (t s : Text) (i : ℕ)
    → 0 < length t
    → find t s ≡ some i
    → ((more : Text) → plain inside 0 (t ++ more) ≡ plain inside' 0 more)
    → ((more : Text) → Free inside (take i s) (drop i s ++ more))
    → IsRound inside s (drop (i + length t) s, inside', chunk (type_of inside) (take i s))
before_tag inside inside' t s i long e passes free =
    let at_tag = find-splits t s i e in
    (
      λ more.
          cut_at inside i s more (free more)
          ∙ ap₂ ◌++◌ (sym (letters_of-chunk (type_of inside) (take i s))) (
              ap (λ z. plain inside 0 (z ++ more)) at_tag
              ∙ ap (plain inside 0) (append_assoc t (drop (i + length t) s) more)
              ∙ passes (drop (i + length t) s ++ more)),
      inl omega (
        arith,
        ap length at_tag,
        ap length (take-drop i s),
        length-append {0} t (drop (i + length t) s),
        length-append {0} (take i s) (drop i s),
      ),
    )

-- No tag in the buffer: what may begin one stays.
until_bracket :
    (inside : Bool) (c : ℕ) (s : Text) (held : Bool) (last : Option ℕ)
    → ((more : Text) → last ≡ none → Free inside (c ∷ s) more)
    → ((more : Text) (i : ℕ)
        → last ≡ some i
        → Free inside (take i (c ∷ s)) (drop i (c ∷ s) ++ more)
          × (held ≡ false → Free inside (drop i (c ∷ s)) more))
    → IsQuiet inside (c ∷ s)
    → IsRound inside
        (c ∷ s)
        (let (rest, out) = emit_until (type_of inside) (c ∷ s) held last in (rest, inside, out))
unfolding emit_until
until_bracket inside c s held none clear cut quiet =
    (λ more. plain-Free inside (c ∷ s) more (clear more refl), inl (omega arith))
until_bracket inside c s false (some i) clear cut quiet = (whole, inl (omega arith))
  where
    whole :
        (more : Text)
        → plain inside 0 ((c ∷ s) ++ more) ≡ letters (type_of inside) (c ∷ s) ++ plain inside 0 more
    whole more =
        let (before, after) = cut more i refl in
        cut_at inside i (c ∷ s) more before
        ∙ ap (λ z. letters (type_of inside) (take i (c ∷ s)) ++ z)
            (plain-Free inside (drop i (c ∷ s)) more (after refl))
        ∙ sym (
            append_assoc (letters (type_of inside) (take i (c ∷ s)))
              (letters (type_of inside) (drop i (c ∷ s))) (plain inside 0 more))
        ∙ ap (λ z. z ++ plain inside 0 more)
            (sym (letters-append (type_of inside) (take i (c ∷ s)) (drop i (c ∷ s)))
              ∙ ap (letters (type_of inside)) (take-drop i (c ∷ s)))
until_bracket inside c s true (some zero) clear cut quiet =
    ((λ more. refl), inr (refl, refl, quiet))
until_bracket inside c s true (some (suc i)) clear cut quiet = (
  λ more. cut_at inside (suc i) (c ∷ s) more (cut more (suc i) refl).0,
  inl (omega (arith, ap length (take-drop i s), length-append {0} (take i s) (drop i s))),
)

abbrev think : Text
think = codes "think>"

abbrev slash : Text
slash = codes "/think>"

same_place : {o : Option ℕ} (i k : ℕ) → o ≡ some i → o ≡ some k → i ≤ k
same_place i k e e' = ground arith

inside_at-IsRound :
    (c : ℕ) (s : Text) (close : Option ℕ)
    → find close_tag (c ∷ s) ≡ close
    → IsRound true (c ∷ s) (inside_at (c ∷ s) close)
unfolding inside_at
inside_at-IsRound c s (some i) e =
    before_tag true false close_tag (c ∷ s) i (omega arith) e (plain-close true) λ more. (
      find-Clear slash (unfold rfind in refl) slash (c ∷ s) more i e (λ k e'. same_place i k e e'),
      λ f. absurd (cc),
    )
inside_at-IsRound c s none e =
    until_bracket true c s (held_inside (c ∷ s) (rfind b'<' (c ∷ s))) (rfind b'<' (c ∷ s))
      (λ more r. ((absent-Clear slash (unfold rfind in refl) (c ∷ s) more e).0 r, λ f. absurd (cc)))
      (λ more i r.
        let (before, after) = (absent-Clear slash (unfold rfind in refl) (c ∷ s) more e).1 i r in
        (
          (before, λ f. absurd (cc)),
          λ h. (after (ap (held_inside (c ∷ s)) (sym r) ∙ h), λ f. absurd (cc)),
        ))
      (e, λ f. absurd (cc))

either_false : (a b : Bool) → (a || b) ≡ false → (a ≡ false) × (b ≡ false)
either_false a b h = ground arith

no_orphan-IsRound :
    (c : ℕ) (s : Text) (start close : Option ℕ)
    → find open_tag (c ∷ s) ≡ start
    → find close_tag (c ∷ s) ≡ close
    → ((i j : ℕ) → start ≡ some i → close ≡ some j → i ≤ j)
    → (start ≡ none → close ≡ none)
    → IsRound false (c ∷ s) (no_orphan (c ∷ s) start)
unfolding no_orphan
no_orphan-IsRound c s (some i) close e e' first neither =
    before_tag false true open_tag (c ∷ s) i (omega arith) e plain-open λ more. (
      find-Clear slash (unfold rfind in refl) think (c ∷ s) more i e
          (λ k at. first i k refl (sym e' ∙ at)),
      λ f.
          find-Clear think (unfold rfind in refl) think (c ∷ s) more i e
            (λ k at. same_place i k e at),
    )
no_orphan-IsRound c s none close e e' first neither =
    until_bracket false c s (held_outside (c ∷ s) (rfind b'<' (c ∷ s))) (rfind b'<' (c ∷ s))
      (λ more r. (
        (absent-Clear slash (unfold rfind in refl) (c ∷ s) more (e' ∙ neither refl)).0 r,
        λ f. (absent-Clear think (unfold rfind in refl) (c ∷ s) more e).0 r,
      ))
      (λ more i r.
        let (close_before, close_after) =
          (absent-Clear slash (unfold rfind in refl) (c ∷ s) more (e' ∙ neither refl)).1 i r in
        let (open_before, open_after) =
          (absent-Clear think (unfold rfind in refl) (c ∷ s) more e).1 i r in
        (
          (close_before, λ f. open_before),
          λ h.
              let (not_open, not_close) =
                either_false (may_be_tag open_tag (drop i (c ∷ s)))
                  (may_be_tag close_tag (drop i (c ∷ s))) (ap (held_outside (c ∷ s)) (sym r) ∙ h) in
              (close_after not_close, λ f. open_after not_open),
        ))
      (e' ∙ neither refl, λ f. e)

not_before : (i : ℕ) (start : Option ℕ) (k : ℕ) → is_before i start ≡ false → start ≡ some k → k ≤ i
not_before i none k h e = cc
not_before i (some j) k h e = ground arith

before_start :
    (i : ℕ) (start : Option ℕ) (k : ℕ) → is_before i start ≡ true → start ≡ some k → i ≤ k
before_start i none k h e = cc
before_start i (some j) k h e = ground arith

outside_at-IsRound :
    (c : ℕ) (s : Text) (start close : Option ℕ)
    → find open_tag (c ∷ s) ≡ start
    → find close_tag (c ∷ s) ≡ close
    → IsRound false (c ∷ s) (outside_at (c ∷ s) start close)
unfolding outside_at
outside_at-IsRound c s start none e e' =
    no_orphan-IsRound c s start none e e' (λ i j a b. absurd (cc)) (λ f. refl)
outside_at-IsRound c s start (some i) e e' = elim (Bool-cases (is_before i start)) [
  | inl before ↦ rw before (
      unfold after_orphan in
      before_tag false false close_tag (c ∷ s) i (omega arith) e' (plain-close false) λ more. (
        find-Clear slash (unfold rfind in refl) slash (c ∷ s) more i e'
            (λ k at. same_place i k e' at),
        λ f.
            find-Clear think (unfold rfind in refl) slash (c ∷ s) more i e'
              (λ k at. before_start i start k before (sym e ∙ at)),
      ))
  | inr after ↦ rw after (
      no_orphan-IsRound c s start (some i) e e'
        (λ k j a b. ground (arith, not_before i start k after a)) (λ f. ground arith))
]

-- Every round is right, in either mode.
pub round_lem : (inside : Bool) (c : ℕ) (s : Text) → IsRound inside (c ∷ s) (round inside (c ∷ s))
unfolding round
round_lem true c s = inside_at-IsRound c s (find close_tag (c ∷ s)) refl
round_lem false c s =
    outside_at-IsRound c s (find open_tag (c ∷ s)) (find close_tag (c ∷ s)) refl refl
