-- ===== src/Thinking.antt =====
-- core/anthropic/thinking.py, class ThinkTagParser. A text is the list of its code points. One round
-- of the loop of `feed` is `parse_outside_think` or `parse_inside_think`.
pub mod Tags
pub mod Plain
pub mod Rounds
pub mod Chunks
mod Examples
use claude_unbound.Prelude.{
  ℕ, zero, suc, ◌+◌, ◌-◌, String, Bool, true, false, not, ◌&&◌, ◌||◌, Option, none, some, List, [],
  ◌∷◌, ◌++◌, eqb, ltb, leb, length, if◌then◌else◌,
}
use claude_unbound.Prelude.Texts.{Text, codes, starts_with, find, rfind, take, drop}

abbrev pub open_tag : Text
open_tag = codes "<think>"

abbrev pub close_tag : Text
close_tag = codes "</think>"

pub data ContentType : Type 0 where
  text thinking : ContentType

pub record ContentChunk : Type 0 where
  pub type : ContentType
  pub content : Text

pub record ThinkTagParser : Type 0 where
  pub buffer : Text
  pub in_think_tag : Bool

abbrev pub new_parser : ThinkTagParser
new_parser = record { buffer = []; in_think_tag = false }

-- `if content: return ContentChunk(...)`, else `None`.
abbrev pub chunk : ContentType → Text → Option ContentChunk
chunk type [] = none
chunk type (c ∷ s) = some (record { type = type; content = c ∷ s })

abbrev pub is_before : ℕ → Option ℕ → Bool
is_before i none = true
is_before i (some j) = ltb i j

-- What may be the start of a tag stays in the buffer.
unfoldable pub may_be_tag : Text → Text → Bool
may_be_tag tag s = ltb (length s) (length tag) && starts_with s tag

-- No tag is in the buffer: what stands before a possible tag goes out.
unfoldable pub emit_until : ContentType → Text → Bool → Option ℕ → Text × Option ContentChunk
emit_until type s held none = ([], chunk type s)
emit_until type s held (some i) =
    if held then (drop i s, chunk type (take i s)) else ([], chunk type s)

abbrev pub held_outside : Text → Option ℕ → Bool
held_outside s none = false
held_outside s (some i) = may_be_tag open_tag (drop i s) || may_be_tag close_tag (drop i s)

abbrev pub held_inside : Text → Option ℕ → Bool
held_inside s none = false
held_inside s (some i) = may_be_tag close_tag (drop i s)

after_orphan : Text → ℕ → Text × Bool × Option ContentChunk
after_orphan s i = (drop (i + length close_tag) s, false, chunk text (take i s))

no_orphan : Text → Option ℕ → Text × Bool × Option ContentChunk
unfolding emit_until may_be_tag
no_orphan s none =
    let (rest, c) = emit_until text s (held_outside s (rfind b'<' s)) (rfind b'<' s) in
    (rest, false, c)
no_orphan s (some i) = (drop (i + length open_tag) s, true, chunk text (take i s))

outside_at : Text → Option ℕ → Option ℕ → Text × Bool × Option ContentChunk
unfolding after_orphan no_orphan
outside_at s think_start none = no_orphan s think_start
outside_at s think_start (some i) =
    if is_before i think_start then after_orphan s i else no_orphan s think_start

-- The buffer, whether it is inside a tag, and the chunk, after the round.
unfoldable pub parse_outside_think : Text → Text × Bool × Option ContentChunk
unfolding outside_at
parse_outside_think s = outside_at s (find open_tag s) (find close_tag s)

inside_at : Text → Option ℕ → Text × Bool × Option ContentChunk
unfolding emit_until may_be_tag
inside_at s none =
    let (rest, c) = emit_until thinking s (held_inside s (rfind b'<' s)) (rfind b'<' s) in
    (rest, true, c)
inside_at s (some i) = (drop (i + length close_tag) s, false, chunk thinking (take i s))

unfoldable pub parse_inside_think : Text → Text × Bool × Option ContentChunk
unfolding inside_at
parse_inside_think s = inside_at s (find close_tag s)

unfoldable pub round : Bool → Text → Text × Bool × Option ContentChunk
unfolding parse_outside_think parse_inside_think
round false s = parse_outside_think s
round true s = parse_inside_think s

-- After a round: the chunk is given out, or the loop stops if the buffer is as long as it was.
abbrev pub after_round :
    (Bool → Text → Option (ThinkTagParser × List ContentChunk))
    → ℕ
    → Text × Bool × Option ContentChunk
    → Option (ThinkTagParser × List ContentChunk)
after_round loop prev_len (rest, inside, some chunk) = elim (loop inside rest) [
  | none ↦ none
  | some (p, chunks) ↦ some (p, chunk ∷ chunks)
]
after_round loop prev_len (rest, inside, none) = elim (eqb (length rest) prev_len) [
  | true ↦ some (record { buffer = rest; in_think_tag = inside }, [])
  | false ↦ loop inside rest
]

-- The loop of `feed`; each round but the last makes the buffer shorter.
unfoldable pub feed_loop : ℕ → Bool → Text → Option (ThinkTagParser × List ContentChunk)
unfolding round
feed_loop zero inside s = none
feed_loop (suc fuel) inside [] = some (record { buffer = []; in_think_tag = inside }, [])
feed_loop (suc fuel) inside (c ∷ s) =
    after_round (feed_loop fuel) (length (c ∷ s)) (round inside (c ∷ s))

unfoldable pub feed : ℕ → Text → ThinkTagParser → Option (ThinkTagParser × List ContentChunk)
unfolding feed_loop
feed fuel content p = feed_loop fuel p.in_think_tag (p.buffer ++ content)

abbrev pub type_of : Bool → ContentType
type_of true = thinking
type_of false = text

unfoldable pub flush : ThinkTagParser → ThinkTagParser × Option ContentChunk
flush p = (record p { buffer = [] }, chunk (type_of p.in_think_tag) p.buffer)
