-- ===== src/Thinking/Chunks.antt =====
-- The think parser over a whole stream, however it is cut into pieces
-- (core/anthropic/thinking.py).
use claude_unbound.Prelude.{
  ℕ, zero, suc, ◌<◌, Bool, false, ◌≡◌, inl, inr, refl, sym, ap, ◌∙◌, Option, none, some, List, [],
  ◌∷◌, ◌++◌, arith, length, append_assoc, append-nil,
}
use claude_unbound.Prelude.Texts.{Text, starts_with, find}
use claude_unbound.Thinking.{
  open_tag, close_tag, ContentType, ContentChunk, ThinkTagParser, new_parser, chunk, after_round,
  round, feed_loop, feed, type_of, flush,
}
use claude_unbound.Thinking.Tags.{absent-Clear_end}
use claude_unbound.Thinking.Plain.{
  plain, letters, letters_of, letters_of-chunk, all_letters, plain-Free,
}
use claude_unbound.Thinking.Rounds.{IsQuiet, IsRound, round_lem}

abbrev pub concat : List Text → Text
concat [] = []
concat (piece ∷ pieces) = piece ++ concat pieces

abbrev given_before :
    List ContentChunk
    → Option (ThinkTagParser × List ContentChunk)
    → Option (ThinkTagParser × List ContentChunk)
given_before chunks none = none
given_before chunks (some (p, later)) = some (p, chunks ++ later)

-- Every piece of the stream is fed, each with the fuel for its rounds.
unfoldable pub feed_all : List Text → ThinkTagParser → Option (ThinkTagParser × List ContentChunk)
feed_all [] p = some (p, [])
feed_all (piece ∷ pieces) p = elim (feed (suc (length (p.buffer ++ piece))) piece p) [
  | none ↦ none
  | some (p', chunks) ↦ given_before chunks (feed_all pieces p')
]

-- At the end of the stream the parser is flushed. The code points that go out, with their kinds:
abbrev pub with_flush :
    Option (ThinkTagParser × List ContentChunk) → Option (List (ContentType × ℕ))
unfolding flush
with_flush none = none
with_flush (some (p, chunks)) = some (all_letters chunks ++ letters_of (flush p).1)

abbrev IsFed : Bool → Text → Option (ThinkTagParser × List ContentChunk) → Type 0
IsFed inside s r =
    (p : ThinkTagParser) × (chunks : List ContentChunk) × (r ≡ some (p, chunks))
    × IsQuiet p.in_think_tag p.buffer
    × ((more : Text)
        → plain inside 0 (s ++ more)
          ≡ all_letters chunks ++ plain p.in_think_tag 0 (p.buffer ++ more))

all_letters-append :
    (xs ys : List ContentChunk) → all_letters (xs ++ ys) ≡ all_letters xs ++ all_letters ys
all_letters-append [] ys = refl
all_letters-append (x ∷ xs) ys =
    ap (λ z. letters x.type x.content ++ z) (all_letters-append xs ys)
    ∙ sym (append_assoc (letters x.type x.content) (all_letters xs) (all_letters ys))

IsQuiet-nil : (inside : Bool) → IsQuiet inside []
unfolding find starts_with
IsQuiet-nil inside = (refl, λ e. refl)

after_round-IsFed :
    (loop : Bool → Text → Option (ThinkTagParser × List ContentChunk)) (inside : Bool) (s : Text)
    (r : Text × Bool × Option ContentChunk)
    → IsRound inside s r
    → (length r.0 < length s → IsFed r.1 r.0 (loop r.1 r.0))
    → IsFed inside s (after_round loop (length s) r)
after_round-IsFed loop inside s (rest, inside', some c) (gives, inr (no_chunk, same, quiet)) later =
    absurd (cc)
after_round-IsFed loop inside s (rest, inside', some c) (gives, inl shorter) later =
    let (p, chunks, done, quiet, whole) = later shorter in
    (
      p,
      c ∷ chunks,
      ground arith,
      quiet,
      λ more.
          gives more
          ∙ ap (λ z. letters c.type c.content ++ z) (whole more)
          ∙ sym (
              append_assoc (letters c.type c.content) (all_letters chunks)
                (plain p.in_think_tag 0 (p.buffer ++ more))),
    )
after_round-IsFed loop inside s (rest, inside', none) (gives, inr (no_chunk, same, quiet)) later = (
  record { buffer = rest; in_think_tag = inside' },
  [],
  ground (arith, ap length same),
  quiet,
  gives,
)
after_round-IsFed loop inside s (rest, inside', none) (gives, inl shorter) later =
    let (p, chunks, done, quiet, whole) = later shorter in
    (p, chunks, ground arith, quiet, λ more. gives more ∙ whole more)

feed_loop-IsFed :
    (fuel : ℕ) (inside : Bool) (s : Text)
    → length s < fuel
    → IsFed inside s (feed_loop fuel inside s)
unfolding feed_loop
feed_loop-IsFed zero inside s h = absurd (omega arith)
feed_loop-IsFed (suc fuel) inside [] h =
    (record { buffer = []; in_think_tag = inside }, [], refl, IsQuiet-nil inside, λ more. refl)
feed_loop-IsFed (suc fuel) inside (c ∷ s) h =
    after_round-IsFed (feed_loop fuel) inside (c ∷ s) (round inside (c ∷ s)) (round_lem inside c s)
      λ shorter.
        feed_loop-IsFed fuel (round inside (c ∷ s)).1 (round inside (c ∷ s)).0 (omega arith)

flushed :
    (inside : Bool) (s : Text) → IsQuiet inside s → plain inside 0 s ≡ letters (type_of inside) s
flushed inside s (no_close, no_open) =
    ap (plain inside 0) (sym (append-nil s))
    ∙ plain-Free inside s []
        (absent-Clear_end close_tag s no_close, λ f. absent-Clear_end open_tag s (no_open f))
    ∙ append-nil-plain
  where
    append-nil-plain : letters (type_of inside) s ++ plain inside 0 [] ≡ letters (type_of inside) s
    append-nil-plain = unfold plain in append-nil (letters (type_of inside) s)

with_flush-given_before :
    (chunks : List ContentChunk) (r : Option (ThinkTagParser × List ContentChunk))
    (l : List (ContentType × ℕ))
    → with_flush r ≡ some l
    → with_flush (given_before chunks r) ≡ some (all_letters chunks ++ l)
unfolding flush
with_flush-given_before chunks none l h = cc
with_flush-given_before chunks (some (p, later)) l h = ap some (
    ap (λ z. z ++ letters_of (chunk (type_of p.in_think_tag) p.buffer))
      (all_letters-append chunks later)
    ∙ append_assoc (all_letters chunks) (all_letters later)
        (letters_of (chunk (type_of p.in_think_tag) p.buffer))
    ∙ ap (λ z. all_letters chunks ++ z) (some-injective h))
  where
    some-injective : {x y : List (ContentType × ℕ)} → some x ≡ some y → x ≡ y
    some-injective e = cc

feed_all-plain :
    (pieces : List Text) (p : ThinkTagParser)
    → IsQuiet p.in_think_tag p.buffer
    → with_flush (feed_all pieces p) ≡ some (plain p.in_think_tag 0 (p.buffer ++ concat pieces))
unfolding feed_all feed flush
feed_all-plain [] p quiet = ap some (
    letters_of-chunk (type_of p.in_think_tag) p.buffer
    ∙ sym (flushed p.in_think_tag p.buffer quiet)
    ∙ ap (plain p.in_think_tag 0) (sym (append-nil p.buffer)))
feed_all-plain (piece ∷ pieces) p quiet =
    let (p', chunks, done, quiet', whole) =
      feed_loop-IsFed (suc (length (p.buffer ++ piece))) p.in_think_tag (p.buffer ++ piece)
        (omega arith) in
    ap
      (λ (r : Option (ThinkTagParser × List ContentChunk)).
        with_flush
          (elim r [ none ↦ none | some (p', chunks) ↦ given_before chunks (feed_all pieces p') ]))
      done
    ∙ with_flush-given_before chunks (feed_all pieces p')
        (plain p'.in_think_tag 0 (p'.buffer ++ concat pieces)) (feed_all-plain pieces p' quiet')
    ∙ ap some (
        sym (whole (concat pieces))
        ∙ ap (plain p.in_think_tag 0) (append_assoc p.buffer piece (concat pieces)))

-- However a text is cut into pieces, feeding the pieces to a new parser and flushing it gives out
-- exactly the code points outside the tags, in order, each as text or as thinking as a reader of the
-- whole text tells; in particular the loop of `feed` ends on every piece.
pub feed_all-eq-plain :
    (pieces : List Text)
    → with_flush (feed_all pieces new_parser) ≡ some (plain false 0 (concat pieces))
feed_all-eq-plain pieces = feed_all-plain pieces new_parser (IsQuiet-nil false)
