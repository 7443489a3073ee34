-- ===== src/Thinking/Examples.antt =====
-- The think parser on a stream cut inside its tags (core/anthropic/thinking.py).
use claude_unbound.Prelude.{◌≡◌, refl, some, false, List, [], ◌∷◌}
use claude_unbound.Prelude.Texts.{Text, codes, starts_with}
use claude_unbound.Thinking.{text, thinking, new_parser}
use claude_unbound.Thinking.Plain.{plain}
use claude_unbound.Thinking.Chunks.{concat, feed_all, with_flush, feed_all-eq-plain}

abbrev cut_inside : List Text
cut_inside = codes "a<th" ∷ codes "ink>b</thi" ∷ codes "nk>c<" ∷ []

feed_all-eq-plain_example :
    with_flush (feed_all cut_inside new_parser) ≡ some (plain false 0 (concat cut_inside))
feed_all-eq-plain_example = feed_all-eq-plain cut_inside

read_cut_inside :
    plain false 0 (concat cut_inside)
    ≡ (text, b'a') ∷ (thinking, b'b') ∷ (text, b'c') ∷ (text, b'<') ∷ []
unfolding plain starts_with
read_cut_inside = refl
