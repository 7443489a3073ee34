-- ===== src/Sse/Blocks.antt =====
-- The blocks that the builder of core/anthropic/sse.py has open, and the invariant that ties them
-- to what its client has seen.
use claude_unbound.Prelude.{
  ℕ, ◌+◌, ◌<◌, ◌≤◌, Bool, true, false, ◌&&◌, ◌||◌, ◌≡◌, refl, sym, ap, ◌∙◌, some, [], ◌∷◌, arith,
  eqb, if◌then◌else◌, Bool-cases, inl, inr,
}
use claude_unbound.Prelude.Table.{ℤ, pos, is_pos, Table, get, put}
use claude_unbound.Sse.{ToolCallState, ContentBlockManager}
use claude_unbound.Sse.Wire.{Wire}

abbrev pub tool_shows : ToolCallState → ℕ → Bool
tool_shows st i = st.started && is_pos st.block_index i

abbrev pub tools_show : Table ToolCallState → ℕ → Bool
tools_show [] i = false
tools_show ((k, st) ∷ t) i = tool_shows st i || tools_show t i

abbrev pub thinking_shows : ContentBlockManager → ℕ → Bool
thinking_shows b i = b.thinking_started && is_pos b.thinking_index i

abbrev pub text_shows : ContentBlockManager → ℕ → Bool
text_shows b i = b.text_started && is_pos b.text_index i

-- A started block has an index that was allocated.
abbrev pub IsPlaced : ℕ → Bool → ℤ → Type 0
IsPlaced n started index = started ≡ true → (i : ℕ) × (index ≡ pos i) × (i < n)

-- The started tools have indices below `n`, each its own.
abbrev pub AreApart : ℕ → Table ToolCallState → Type 0
AreApart n [] = Unit {0}
AreApart n ((k, st) ∷ t) =
    IsPlaced n st.started st.block_index
    × ((i : ℕ) → tool_shows st i ≡ true → tools_show t i ≡ false)
    × AreApart n t

pub record Agrees (b : ContentBlockManager) (w : Wire) : Type 0 where
  pub next : w.next ≡ b.next_index
  pub same :
      (i : ℕ) → w.open_at i ≡ (thinking_shows b i || text_shows b i || tools_show b.tool_states i)
  pub thinking_placed : IsPlaced b.next_index b.thinking_started b.thinking_index
  pub text_placed : IsPlaced b.next_index b.text_started b.text_index
  pub tools_apart : AreApart b.next_index b.tool_states
  pub thinking_apart :
      (i : ℕ)
      → thinking_shows b i ≡ true
      → (text_shows b i ≡ false) × (tools_show b.tool_states i ≡ false)
  pub text_apart : (i : ℕ) → text_shows b i ≡ true → tools_show b.tool_states i ≡ false

pub tool_open :
    (k i : ℕ) (st : ToolCallState) (t : Table ToolCallState)
    → get k t ≡ some st
    → st.started ≡ true
    → st.block_index ≡ pos i
    → tools_show t i ≡ true
unfolding get
tool_open k i st [] g on e = cc
tool_open k i st ((j, s) ∷ t) g on e = ground (arith, tool_open k i st t)

pub AreApart-mono : (n m : ℕ) (t : Table ToolCallState) → n ≤ m → AreApart n t → AreApart m t
AreApart-mono n m [] le a = tt
AreApart-mono n m ((k, st) ∷ t) le a =
    ((λ s. let (i, e, lt) = a.0 s in (i, e, omega arith)), a.1, AreApart-mono n m t le a.2)

pub tools_show-below :
    (n i : ℕ) (t : Table ToolCallState) → AreApart n t → tools_show t i ≡ true → i < n
tools_show-below n i [] a s = absurd (ground arith)
tools_show-below n i ((k, st) ∷ t) a s = ground (arith, a.0, tools_show-below n i t a.2)

-- The tools after a write: an old state that is not started gives way.
module _ (k : ℕ) (st : ToolCallState) where
  pub tools_show-put_new :
      (i : ℕ) (t : Table ToolCallState)
      → ((old : ToolCallState) → get k t ≡ some old → old.started ≡ false)
      → tools_show (put k st t) i ≡ (tool_shows st i || tools_show t i)
  unfolding get put
  tools_show-put_new i [] h = refl
  tools_show-put_new i ((j, s) ∷ t) h = elim (Bool-cases (eqb j k)) [
    | inl e ↦ rw e (ground (arith, h s))
    | inr e ↦ rw e (ground (arith, tools_show-put_new i t (λ old g. h old (rw e g))))
  ]

  pub AreApart-put_new :
      (n : ℕ) (t : Table ToolCallState)
      → AreApart n t
      → st.block_index ≡ pos n
      → ((old : ToolCallState) → get k t ≡ some old → old.started ≡ false)
      → AreApart (n + 1) (put k st t)
  unfolding get put
  AreApart-put_new n [] a at_n h = ((λ s. (n, at_n, omega arith)), (λ i s. refl), tt)
  AreApart-put_new n ((j, s) ∷ t) a at_n h = elim (Bool-cases (eqb j k)) [
    | inl e ↦ rw e (
      (λ _. (n, at_n, omega arith)),
      (λ i shown. fresh i shown),
      AreApart-mono n (n + 1) t (omega arith) a.2,
    )
    | inr e ↦
        let rest = AreApart-put_new n t a.2 at_n (λ old g. h old (rw e g)) in
        rw e (
          (λ x. let (i, f, lt) = a.0 x in (i, f, omega arith)),
          (λ i shown. other i shown (λ old g. h old (rw e g))),
          rest,
        )
  ]
    where
      fresh : (i : ℕ) → tool_shows st i ≡ true → tools_show t i ≡ false
      fresh i shown = ground (arith, tools_show-below n i t a.2)

      other :
          (i : ℕ)
          → tool_shows s i ≡ true
          → ((old : ToolCallState) → get k t ≡ some old → old.started ≡ false)
          → tools_show (put k st t) i ≡ false
      other i shown g = rw (tools_show-put_new i t g) (ground (arith, a.0, a.1 i))

  -- A write of a tool that is not started.
  pub AreApart-put_unstarted :
      (n : ℕ) (t : Table ToolCallState)
      → st.started ≡ false
      → AreApart n t
      → ((old : ToolCallState) → get k t ≡ some old → old.started ≡ false)
      → AreApart n (put k st t)
  unfolding get put
  AreApart-put_unstarted n [] off a h = ((λ x. absurd (ground arith)), (λ i s. refl), tt)
  AreApart-put_unstarted n ((j, s) ∷ t) off a h = elim (Bool-cases (eqb j k)) [
    | inl e ↦ rw e ((λ x. absurd (ground arith)), (λ i shown. absurd (ground arith)), a.2)
    | inr e ↦ rw e (
      a.0,
      (λ i shown. tools_show-put_new i t (λ old g. h old (rw e g)) ∙ rw off (a.1 i shown)),
      AreApart-put_unstarted n t off a.2 (λ old g. h old (rw e g)),
    )
  ]

  -- A write that leaves the block of the tool as it is.
  module _ (old : ToolCallState) (same_started : st.started ≡ old.started)
      (same_index : st.block_index ≡ old.block_index) where
    pub tools_show-put_same :
        (i : ℕ) (t : Table ToolCallState)
        → get k t ≡ some old
        → tools_show (put k st t) i ≡ tools_show t i
    unfolding get put
    tools_show-put_same i [] h = cc
    tools_show-put_same i ((j, s) ∷ t) h = elim (Bool-cases (eqb j k)) [
      | inl e ↦ rw e (ground arith)
      | inr e ↦ rw e (ap (λ b. tool_shows s i || b) (tools_show-put_same i t (rw e at h)))
    ]

    pub AreApart-put_same :
        (n : ℕ) (t : Table ToolCallState)
        → get k t ≡ some old
        → AreApart n t
        → AreApart n (put k st t)
    unfolding get put
    AreApart-put_same n [] h a = cc
    AreApart-put_same n ((j, s) ∷ t) h a = elim (Bool-cases (eqb j k)) [
      | inl e ↦
          let is_old : s ≡ old = ground arith in
          rw e (
            (λ x.
                let (i, f, lt) = a.0 (ap (λ z. z.started) is_old ∙ sym same_started ∙ x) in
                (i, same_index ∙ sym (ap (λ z. z.block_index) is_old) ∙ f, lt)),
            (λ i shown. a.1 i (ground arith)),
            a.2,
          )
      | inr e ↦
          let h' : get k t ≡ some old = rw e at h in
          rw e (
            a.0,
            (λ i shown. tools_show-put_same i t h' ∙ a.1 i shown),
            AreApart-put_same n t h' a.2,
          )
    ]

  -- A write that closes the block of the tool.
  module _ (old : ToolCallState) (idx : ℕ) (was_started : old.started ≡ true)
      (at_idx : old.block_index ≡ pos idx) (is_closed : st.started ≡ false) where
    pub tools_show-put_closed :
        (n i : ℕ) (t : Table ToolCallState)
        → get k t ≡ some old
        → AreApart n t
        → tools_show (put k st t) i ≡ (if eqb idx i then false else tools_show t i)
    unfolding get put
    tools_show-put_closed n i [] h a = cc
    tools_show-put_closed n i ((j, s) ∷ t) h a = elim (Bool-cases (eqb j k)) [
      | inl e ↦
          let is_old : s ≡ old = ground arith in
          let shown : tool_shows s i ≡ eqb idx i = rw (is_old, was_started, at_idx) refl in
          rw (e, is_closed) (ground (arith, a.1 i))
      | inr e ↦
          let h' : get k t ≡ some old = rw e at h in
          let later : tools_show t idx ≡ true = tool_open k idx old t h' was_started at_idx in
          rw e (ground (arith, tools_show-put_closed n i t h' a.2, a.1 i))
    ]

    pub AreApart-put_closed :
        (n : ℕ) (t : Table ToolCallState)
        → get k t ≡ some old
        → AreApart n t
        → AreApart n (put k st t)
    unfolding get put
    AreApart-put_closed n [] h a = cc
    AreApart-put_closed n ((j, s) ∷ t) h a = elim (Bool-cases (eqb j k)) [
      | inl e ↦ rw e ((λ x. absurd (ground arith)), (λ i shown. absurd (ground arith)), a.2)
      | inr e ↦
          let h' : get k t ≡ some old = rw e at h in
          rw e (
            a.0,
            (λ i shown. ground (arith, tools_show-put_closed n i t h' a.2, a.1 i)),
            AreApart-put_closed n t h' a.2,
          )
    ]
