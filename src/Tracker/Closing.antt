-- ===== src/Tracker/Closing.antt =====
-- The tracker of core/anthropic/emitted_sse_tracker.py against the client of Sse/Wire: it knows which
-- blocks are open, and its closing events close them.
use mathlib.Core.List.{reverse-cons}
use claude_unbound.Prelude.{
  ℕ, ◌<◌, Bool, true, false, ◌||◌, ◌≡◌, refl, sym, ap, ◌∙◌, subst, Option, none, some, List, [],
  ◌∷◌, ◌++◌, reverse, arith, eqb, Bool-cases, Option-cases, inl, inr, if◌then◌else◌,
}
use claude_unbound.Prelude.Table.{ℤ, pos, negsuc, Table, get}
use claude_unbound.Sse
use claude_unbound.Sse.{Event}
use claude_unbound.Sse.Wire.{Wire, nothing_sent, accept, check, check-append, opened, closed}
use claude_unbound.Tracker.{
  SseEvent, Tracker, EmittedBlockState, StartBlock, DeltaFields, new_tracker, observe,
  message_start, content_block_start, content_block_delta, content_block_stop, message_delta,
  message_stop, other, top_is, pop, remove_first, unstack, higher, iter_close_unclosed_blocks,
  close_each, close_block, next_content_index,
}

abbrev member : ℕ → List ℕ → Bool
member i [] = false
member i (j ∷ js) = eqb j i || member i js

abbrev AreDistinct : List ℕ → Type 0
AreDistinct [] = Unit {0}
AreDistinct (j ∷ js) = (member j js ≡ false) × AreDistinct js

member-append : (i : ℕ) (is js : List ℕ) → member i (is ++ js) ≡ (member i is || member i js)
member-append i [] js = refl
member-append i (k ∷ is) js = ground (arith, member-append i is js)

AreDistinct-snoc :
    (i : ℕ) (is : List ℕ) → AreDistinct is → member i is ≡ false → AreDistinct (is ++ i ∷ [])
AreDistinct-snoc i [] d new = (refl, tt)
AreDistinct-snoc i (k ∷ is) d new =
    (ground (arith, member-append k is (i ∷ []), d.0), AreDistinct-snoc i is d.1 (ground arith))

member-reverse : (i : ℕ) (is : List ℕ) → member i (reverse is) ≡ member i is
member-reverse i [] = refl
member-reverse i (k ∷ is) =
    rw (reverse-cons k is, member-append i (reverse is) (k ∷ []), member-reverse i is)
      (ground arith)

AreDistinct-reverse : (is : List ℕ) → AreDistinct is → AreDistinct (reverse is)
AreDistinct-reverse [] d = tt
AreDistinct-reverse (k ∷ is) d =
    rw (reverse-cons k is)
      (AreDistinct-snoc k (reverse is) (AreDistinct-reverse is d.1) (member-reverse k is ∙ d.0))

member-remove_first :
    (i j : ℕ) (is : List ℕ)
    → AreDistinct is
    → member j (remove_first i is) ≡ (if eqb i j then false else member j is)
unfolding remove_first
member-remove_first i j [] d = ground arith
member-remove_first i j (k ∷ is) d = ground (arith, member-remove_first i j is d.1, d.0)

AreDistinct-remove_first : (i : ℕ) (is : List ℕ) → AreDistinct is → AreDistinct (remove_first i is)
unfolding remove_first
AreDistinct-remove_first i [] d = tt
AreDistinct-remove_first i (k ∷ is) d = elim (Bool-cases (eqb k i)) [
  | inl e ↦ rw e d.1
  | inr e ↦
      rw e (ground (arith, member-remove_first i k is d.1, d.0), AreDistinct-remove_first i is d.1)
]

-- With the item on top, taking the top off is taking the item out.
pop-eq-remove_first :
    (i : ℕ) (is : List ℕ) → AreDistinct is → top_is i is ≡ true → pop is ≡ remove_first i is
unfolding remove_first pop
pop-eq-remove_first i [] d top = cc
pop-eq-remove_first i (k ∷ []) d top = ground arith
pop-eq-remove_first i (k ∷ j ∷ is) d top =
    ground (arith, d.0, pop-eq-remove_first i (j ∷ is) d.1, top_member (j ∷ is) top)
  where
    top_member : (js : List ℕ) → top_is i js ≡ true → member i js ≡ true
    top_member [] t = cc
    top_member (a ∷ []) t = ground arith
    top_member (a ∷ b ∷ js) t = ground (arith, top_member (b ∷ js) t)

-- The fields of an event of the builder, as they are read back.
abbrev index_of : ℤ → Option ℕ
index_of (pos i) = some i
index_of (negsuc i) = none

pub block_fields : Sse.Block → StartBlock
block_fields Sse.thinking = record {
  type = "thinking";
  id = none;
  name = none;
  text = none;
  thinking = some "";
}
block_fields Sse.text = record {
  type = "text";
  id = none;
  name = none;
  text = some "";
  thinking = none;
}
block_fields (Sse.tool_use id name extra) = record {
  type = "tool_use";
  id = some id;
  name = some name;
  text = none;
  thinking = none;
}

pub delta_fields : Sse.Delta → DeltaFields
delta_fields (Sse.thinking_delta s) = record { text = none; thinking = some s; partial_json = none }
delta_fields (Sse.text_delta s) = record { text = some s; thinking = none; partial_json = none }
delta_fields (Sse.input_json_delta s) = record {
  text = none;
  thinking = none;
  partial_json = some s;
}

unfoldable pub seen : Event → SseEvent
seen (Sse.message_start id model usage) = message_start (some id) (some model)
seen (Sse.message_delta reason usage) = message_delta (some reason)
seen Sse.message_stop = message_stop
seen (Sse.content_block_start i b) = content_block_start (index_of i) (some (block_fields b))
seen (Sse.content_block_delta i d) = content_block_delta (index_of i) (some (delta_fields d))
seen (Sse.content_block_stop i) = content_block_stop (index_of i)
seen (Sse.top_level_error msg) = other

unfoldable pub track : List Event → Tracker → Tracker
track [] t = t
track (e ∷ es) t = track es (observe (seen e) t)

record Tracks (w : Wire) (t : Tracker) : Type 0 where
  next : t.next_index ≡ w.next
  same : (i : ℕ) → member i t.open_stack ≡ w.open_at i
  below : (i : ℕ) → member i t.open_stack ≡ true → i < w.next
  distinct : AreDistinct t.open_stack

stop-Tracks :
    (i : ℕ) (w : Wire) (t u : Tracker)
    → Tracks w t
    → u.open_stack ≡ unstack i t.open_stack
    → u.next_index ≡ t.next_index
    → Tracks (closed i w) u
unfolding unstack
stop-Tracks i w t u k e n = record {
  next = n ∙ k.next;
  same = λ j.
      ap (member j) left
      ∙ member-remove_first i j t.open_stack k.distinct
      ∙ ground (arith, k.same j);
  below = λ j m.
      k.below j
        (ground (arith, ap (member j) left, member-remove_first i j t.open_stack k.distinct));
  distinct = subst AreDistinct (sym left) (AreDistinct-remove_first i t.open_stack k.distinct);
}
  where
    left : u.open_stack ≡ remove_first i t.open_stack
    left = elim (Bool-cases (top_is i t.open_stack)) [
      | inl top ↦ e ∙ rw top (pop-eq-remove_first i t.open_stack k.distinct top)
      | inr not_top ↦ e ∙ rw not_top refl
    ]

start-Tracks :
    (i : ℕ) (w : Wire) (t u : Tracker)
    → Tracks w t
    → i ≡ w.next
    → u.open_stack ≡ t.open_stack ++ i ∷ []
    → u.next_index ≡ higher t.next_index i
    → Tracks (opened i w) u
start-Tracks i w t u k at_next e n = record {
  next = ground (arith, k.next);
  same = λ j. ap (member j) e ∙ member-append j t.open_stack (i ∷ []) ∙ ground (arith, k.same j);
  below = λ j m. ground (arith, ap (member j) e, member-append j t.open_stack (i ∷ []), k.below j);
  distinct =
      subst AreDistinct (sym e)
        (AreDistinct-snoc i t.open_stack k.distinct (ground (arith, k.below i)));
}

same-Tracks :
    (w : Wire) (t u : Tracker)
    → Tracks w t
    → u.open_stack ≡ t.open_stack
    → u.next_index ≡ t.next_index
    → Tracks w u
same-Tracks w t u k e n = record {
  next = n ∙ k.next;
  same = λ j. ap (member j) e ∙ k.same j;
  below = λ j m. k.below j (sym (ap (member j) e) ∙ m);
  distinct = subst AreDistinct (sym e) k.distinct;
}

is_same :
    (w v : Wire) (t u : Tracker)
    → Tracks w t
    → some w ≡ some v
    → u.open_stack ≡ t.open_stack
    → u.next_index ≡ t.next_index
    → Tracks v u
is_same w v t u k e o n =
    let same : w ≡ v = cc in subst (λ z. Tracks z u) same (same-Tracks w t u k o n)

started :
    (i : ℕ) (w v : Wire)
    → (if eqb i w.next then some (opened i w) else none) ≡ some v
    → (i ≡ w.next) × (opened i w ≡ v)
started i w v e = ground arith

kept : (i : ℕ) (w v : Wire) → (if w.open_at i then some w else none) ≡ some v → some w ≡ some v
kept i w v e = ground arith

stopped :
    (i : ℕ) (w v : Wire)
    → (if w.open_at i then some (closed i w) else none) ≡ some v
    → closed i w ≡ v
stopped i w v e = ground arith

observe-Tracks :
    (e : Event) (w v : Wire) (t : Tracker)
    → Tracks w t
    → accept e w ≡ some v
    → Tracks v (observe (seen e) t)
unfolding accept observe seen
observe-Tracks (Sse.message_start id model usage) w v t k a =
    is_same w v t (observe (seen (Sse.message_start id model usage)) t) k a refl refl
observe-Tracks (Sse.message_delta reason usage) w v t k a =
    is_same w v t (observe (seen (Sse.message_delta reason usage)) t) k a refl refl
observe-Tracks Sse.message_stop w v t k a =
    is_same w v t (observe (seen Sse.message_stop) t) k a refl refl
observe-Tracks (Sse.content_block_start (pos i) b) w v t k a =
    let (at_next, e) = started i w v a in
    subst (λ z. Tracks z (observe (seen (Sse.content_block_start (pos i) b)) t)) e
      (start-Tracks i w t _ k at_next refl refl)
observe-Tracks (Sse.content_block_start (negsuc i) b) w v t k a = cc
observe-Tracks (Sse.content_block_delta (pos i) d) w v t k a =
    is_same w v t (observe (seen (Sse.content_block_delta (pos i) d)) t) k (kept i w v a) refl refl
observe-Tracks (Sse.content_block_delta (negsuc i) d) w v t k a = cc
observe-Tracks (Sse.content_block_stop (pos i)) w v t k a =
    subst (λ z. Tracks z (observe (seen (Sse.content_block_stop (pos i))) t)) (stopped i w v a)
      (stop-Tracks i w t _ k refl refl)
observe-Tracks (Sse.content_block_stop (negsuc i)) w v t k a = cc
observe-Tracks (Sse.top_level_error msg) w v t k a =
    is_same w v t (observe (seen (Sse.top_level_error msg)) t) k a refl refl

track-Tracks :
    (es : List Event) (w v : Wire) (t : Tracker)
    → Tracks w t
    → check es w ≡ some v
    → Tracks v (track es t)
unfolding track check
track-Tracks [] w v t k c = is_same w v t t k c refl refl
track-Tracks (e ∷ es) w v t k c = elim (Option-cases (accept e w)) [
  | inl a ↦ absurd (rejected (rw a at c))
  | inr (u, a) ↦ track-Tracks es u v (observe (seen e) t) (observe-Tracks e w u t k a) (rw a at c)
]
  where
    rejected : none ≡ some v → ⊥
    rejected x = cc

close_each-closes :
    (is : List ℕ) (t : Table EmittedBlockState) (w : Wire)
    → AreDistinct is
    → ((i : ℕ) → member i is ≡ w.open_at i)
    → (z : Wire) × (check (close_each is t).1 w ≡ some z) × ((i : ℕ) → z.open_at i ≡ false)
unfolding close_each check accept
close_each-closes [] t w d same = (w, refl, λ i. sym (same i))
close_each-closes (i ∷ is) t w d same =
    let (z, run, empty) =
      close_each-closes is (close_block i (get i t) t) (closed i w) d.1
        (λ j. ground (arith, same j, d.0)) in
    let on : w.open_at i ≡ true = ground (arith, same i) in (z, rw on run, empty)

-- Let a client accept some events from the start of a stream. The tracker that has seen them offers the
-- index that the client expects next; the events by which it closes the blocks that are open are
-- accepted after them, and leave no block open, neither at the client nor on its stack.
pub tracked-closes :
    (es : List Event) (w : Wire)
    → check es nothing_sent ≡ some w
    → let t = track es new_tracker in
      let (u, stops) = iter_close_unclosed_blocks t in
      (next_content_index t ≡ w.next)
      × (z : Wire) × (check (es ++ stops) nothing_sent ≡ some z)
      × ((i : ℕ) → z.open_at i ≡ false)
      × (u.open_stack ≡ [])
unfolding iter_close_unclosed_blocks next_content_index
tracked-closes es w run =
    let t = track es new_tracker in
    let k : Tracks w t = track-Tracks es nothing_sent w new_tracker fresh run in
    let (z, stops, empty) =
      close_each-closes (reverse t.open_stack) t.blocks w
        (AreDistinct-reverse t.open_stack k.distinct)
        (λ i. member-reverse i t.open_stack ∙ k.same i) in
    (k.next, z, check-append es _ nothing_sent w run ∙ stops, empty, refl)
  where
    fresh : Tracks nothing_sent new_tracker
    fresh = record { next = refl; same = λ i. refl; below = λ i m. cc; distinct = tt }
