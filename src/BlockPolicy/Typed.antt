-- ===== src/BlockPolicy/Typed.antt =====
-- The segments of core/anthropic/native_sse_block_policy.py have the types of the provider's blocks and
-- of the client's.
use claude_unbound.Prelude.{
  ℕ, ◌+◌, ◌<◌, ◌≡◌, refl, sym, ap, ◌∙◌, Option, some, List, [], ◌∷◌, ◌++◌, arith, eqb, Bool-cases,
  inl, inr,
}
use claude_unbound.Prelude.Texts.{Text}
use claude_unbound.Prelude.Table.{Table, get, put, get-put}
use claude_unbound.BlockPolicy.State.{Sent, start, delta, stop, UpstreamBlockState}
use claude_unbound.BlockPolicy.{close_each}
use claude_unbound.BlockPolicy.Contract.{set_at, IsTyped, types_after, deltas_of, starts_of}

pub record Typed (n : ℕ) (t : Table UpstreamBlockState) (kinds types : ℕ → Option Text)
    : Type 0 where
  pub below : (k : ℕ) (seg : UpstreamBlockState) → get k t ≡ some seg → seg.down_index < n
  pub shown :
      (k : ℕ) (seg : UpstreamBlockState)
      → get k t ≡ some seg
      → types seg.down_index ≡ some seg.block_type
  pub kind : (k : ℕ) (seg : UpstreamBlockState) → get k t ≡ some seg → kinds k ≡ some seg.block_type

-- Streams one after the other.
pub IsTyped-append :
    (types : ℕ → Option Text) (out later : List Sent)
    → IsTyped types out
    → IsTyped (types_after types out) later
    → IsTyped types (out ++ later)
IsTyped-append types [] later h k = k
IsTyped-append types (start i b ∷ out) later h k =
    IsTyped-append (set_at i b.type types) out later h k
IsTyped-append types (delta i d ∷ out) later h k = (h.0, IsTyped-append types out later h.1 k)
IsTyped-append types (stop i ∷ out) later h k = IsTyped-append types out later h k

pub types_after-append :
    (types : ℕ → Option Text) (out later : List Sent)
    → types_after types (out ++ later) ≡ types_after (types_after types out) later
types_after-append types [] later = refl
types_after-append types (start i b ∷ out) later =
    types_after-append (set_at i b.type types) out later
types_after-append types (delta i d ∷ out) later = types_after-append types out later
types_after-append types (stop i ∷ out) later = types_after-append types out later

pub deltas_of-append :
    (out later : List Sent) → deltas_of (out ++ later) ≡ deltas_of out ++ deltas_of later
deltas_of-append [] later = refl
deltas_of-append (start i b ∷ out) later = deltas_of-append out later
deltas_of-append (delta i d ∷ out) later = ap (λ z. d ∷ z) (deltas_of-append out later)
deltas_of-append (stop i ∷ out) later = deltas_of-append out later

pub starts_of-append :
    (out later : List Sent) → starts_of (out ++ later) ≡ starts_of out ++ starts_of later
starts_of-append [] later = refl
starts_of-append (start i b ∷ out) later = ap (λ z. b ∷ z) (starts_of-append out later)
starts_of-append (delta i d ∷ out) later = starts_of-append out later
starts_of-append (stop i ∷ out) later = starts_of-append out later

module _ (n : ℕ) (t : Table UpstreamBlockState) (kinds types : ℕ → Option Text)
    (h : Typed n t kinds types) where
  -- A new segment at the next index.
  pub put_new-Typed :
      (i : ℕ) (seg : UpstreamBlockState) (type : Option Text)
      → seg.down_index ≡ n
      → type ≡ some seg.block_type
      → Typed (n + 1) (put i seg t) (set_at i type kinds) (set_at n type types)
  put_new-Typed i seg type at_n e = record {
    below = λ k old g. ground (arith, get-put k i seg t, h.below k old);
    shown = λ k old g. elim (Bool-cases (eqb i k)) [
      | inl same ↦ ground (arith, get-put k i seg t)
      | inr other ↦
          let g' : get k t ≡ some old = sym (get-put k i seg t ∙ rw other refl) ∙ g in
          ground (arith, h.below k old g', h.shown k old g')
    ];
    kind = λ k old g. elim (Bool-cases (eqb i k)) [
      | inl same ↦ ground (arith, get-put k i seg t)
      | inr other ↦
          let g' : get k t ≡ some old = sym (get-put k i seg t ∙ rw other refl) ∙ g in
          rw other (h.kind k old g')
    ];
  }

  -- A segment that keeps its index and its type.
  pub put_old-Typed :
      (i : ℕ) (seg old : UpstreamBlockState)
      → get i t ≡ some old
      → seg.down_index ≡ old.down_index
      → seg.block_type ≡ old.block_type
      → Typed n (put i seg t) kinds types
  put_old-Typed i seg old g same_index same_type = record {
    below = λ k s f. ground (arith, get-put k i seg t, h.below k s, h.below i old);
    shown = λ k s f. elim (Bool-cases (eqb i k)) [
      | inl same ↦
          let at_k : s ≡ seg = ground (arith, get-put k i seg t) in
          rw (at_k, same_index, same_type) (h.shown i old g)
      | inr other ↦ h.shown k s (sym (get-put k i seg t ∙ rw other refl) ∙ f)
    ];
    kind = λ k s f. elim (Bool-cases (eqb i k)) [
      | inl same ↦
          let at_k : s ≡ seg = ground (arith, get-put k i seg t) in
          let is_k : k ≡ i = ground arith in rw (at_k, same_type, is_k) (h.kind i old g)
      | inr other ↦ h.kind k s (sym (get-put k i seg t ∙ rw other refl) ∙ f)
    ];
  }

  -- What is learned of an index agrees with its segment.
  pub set_kind-Typed :
      (i : ℕ) (type : Option Text)
      → ((seg : UpstreamBlockState) → get i t ≡ some seg → type ≡ some seg.block_type)
      → Typed n t (set_at i type kinds) types
  set_kind-Typed i type agrees = record {
    below = h.below;
    shown = h.shown;
    kind = λ k seg g. elim (Bool-cases (eqb i k)) [
      | inl same ↦
          let is_k : k ≡ i = ground arith in rw same (agrees seg (ap (λ j. get j t) (sym is_k) ∙ g))
      | inr other ↦ rw other (h.kind k seg g)
    ];
  }

-- The stops that `close_each` sends have no types, and it keeps the types of the segments.
module _ (i : ℕ) where
  pub close_each-stops :
      (t : Table UpstreamBlockState) (types : ℕ → Option Text)
      → let out = (close_each i t).2 in
        IsTyped types out
        × (types_after types out ≡ types)
        × (deltas_of out ≡ [])
        × (starts_of out ≡ [])
  unfolding close_each
  close_each-stops [] types = (tt, refl, refl, refl)
  close_each-stops ((k, seg) ∷ t) types =
      let rest = close_each-stops t types in
      elim (Bool-cases (eqb k i)) [
        | inl same ↦ rw same rest
        | inr other ↦ elim (Bool-cases seg.is_open) [
          | inl on ↦ rw (other, on) rest
          | inr off ↦ rw (other, off) rest
        ]
      ]

  close_each-old :
      (t : Table UpstreamBlockState) (k : ℕ) (seg : UpstreamBlockState)
      → get k (close_each i t).0 ≡ some seg
      → (old : UpstreamBlockState) × (get k t ≡ some old)
        × (seg.down_index ≡ old.down_index)
        × (seg.block_type ≡ old.block_type)
  unfolding close_each get
  close_each-old [] k seg g = cc
  close_each-old ((j, s) ∷ t) k seg g = elim (Bool-cases (eqb j k)) [
    | inl e ↦ (s, rw e refl, ground arith, ground arith)
    | inr e ↦
        let rest : get k (close_each i t).0 ≡ some seg = ground arith in
        let (old, f, same, type) = close_each-old t k seg rest in (old, rw e f, same, type)
  ]

  pub close_each-Typed :
      (n : ℕ) (t : Table UpstreamBlockState) (kinds types : ℕ → Option Text)
      → Typed n t kinds types
      → Typed n (close_each i t).0 kinds types
  close_each-Typed n t kinds types h = record {
    below = λ k seg g.
        let (old, f, same, type) = close_each-old t k seg g in ground (arith, h.below k old f);
    shown = λ k seg g.
        let (old, f, same, type) = close_each-old t k seg g in rw (same, type) (h.shown k old f);
    kind =
        λ k seg g. let (old, f, same, type) = close_each-old t k seg g in rw type (h.kind k old f);
  }
