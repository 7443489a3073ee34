-- ===== src/Thinking/Plain.antt =====
-- The reference for the think parser: the whole text read at once, one code point after another
-- (core/anthropic/thinking.py).
use claude_unbound.Prelude.{
  ℕ, zero, suc, Bool, true, false, not, ◌&&◌, ◌≡◌, refl, ap, Option, none, some, List, [], ◌∷◌,
  ◌++◌, if◌then◌else◌,
}
use claude_unbound.Prelude.Texts.{Text, starts_with}
use claude_unbound.Thinking.{
  open_tag, close_tag, ContentType, text, thinking, ContentChunk, chunk, type_of,
}
use claude_unbound.Thinking.Tags.{Clear}

-- What a parser that has the whole text gives: each code point outside the tags, with its kind.
-- `skip` code points of a tag are still to be passed over.
unfoldable pub plain : Bool → ℕ → Text → List (ContentType × ℕ)
plain inside skip [] = []
plain inside (suc skip) (c ∷ s) = plain inside skip s
plain inside zero (c ∷ s) =
    let closed = plain false 7 s in
    let opened = plain true 6 s in
    let kept = plain inside 0 s in
    if starts_with close_tag (c ∷ s)
    then closed
    else if not inside && starts_with open_tag (c ∷ s)
    then opened
    else ((type_of inside, c) ∷ kept)

abbrev pub letters : ContentType → Text → List (ContentType × ℕ)
letters type [] = []
letters type (c ∷ s) = (type, c) ∷ letters type s

abbrev pub letters_of : Option ContentChunk → List (ContentType × ℕ)
letters_of none = []
letters_of (some c) = letters c.type c.content

abbrev pub all_letters : List ContentChunk → List (ContentType × ℕ)
all_letters [] = []
all_letters (c ∷ chunks) = letters c.type c.content ++ all_letters chunks

pub letters_of-chunk : (type : ContentType) (s : Text) → letters_of (chunk type s) ≡ letters type s
letters_of-chunk type [] = refl
letters_of-chunk type (c ∷ s) = refl

pub letters-append :
    (type : ContentType) (s s' : Text) → letters type (s ++ s') ≡ letters type s ++ letters type s'
letters-append type [] s' = refl
letters-append type (c ∷ s) s' = ap (λ z. (type, c) ∷ z) (letters-append type s s')

-- No tag that counts begins in `s`.
abbrev pub Free : Bool → Text → Text → Type 0
Free inside s more = Clear close_tag s more × (inside ≡ false → Clear open_tag s more)

pub plain-close : (inside : Bool) (s : Text) → plain inside 0 (close_tag ++ s) ≡ plain false 0 s
unfolding plain starts_with
plain-close inside s = refl

pub plain-open : (s : Text) → plain false 0 (open_tag ++ s) ≡ plain true 0 s
unfolding plain starts_with
plain-open s = refl

pub plain-Free :
    (inside : Bool) (s more : Text)
    → Free inside s more
    → plain inside 0 (s ++ more) ≡ letters (type_of inside) s ++ plain inside 0 more
unfolding plain
plain-Free inside [] more free = refl
plain-Free true (c ∷ s) more ((no_close, later), opens) =
    rw no_close (ap (λ z. (thinking, c) ∷ z) (plain-Free true s more (later, λ e. cc)))
plain-Free false (c ∷ s) more ((no_close, later), opens) =
    rw (no_close, (opens refl).0)
      (ap (λ z. (text, c) ∷ z) (plain-Free false s more (later, λ e. (opens refl).1)))
