-- ===== src/Sse/Protocol.antt =====
-- Every event that the builder of core/anthropic/sse.py yields is one that its client accepts.
use claude_unbound.Prelude.{
  ℕ, ◌<◌, String, true, false, ◌≡◌, refl, sym, ap, ◌∙◌, subst, Option, none, some, List, [], ◌∷◌,
  ◌++◌, arith, eqb, Bool-cases, Option-cases, inl, inr,
}
use claude_unbound.Prelude.Table.{ℤ, pos, negsuc, Table, get, put}
use claude_unbound.Sse.{
  Extra, Block, Delta, iter_heuristic_tool_use_sse, whole_tool, text, thinking, tool_use,
  text_delta, thinking_delta, input_json_delta, shown, ToolCallState, ContentBlockManager,
  SseBuilder, Event, with_blocks, content_block_start, content_block_delta, content_block_stop,
  andthen, stop_thinking_block, stop_text_block, stop_thinking_if, stop_text_if,
  start_thinking_block, start_text_block, start_thinking_if, start_text_if, emit_thinking_delta,
  emit_text_delta, ensure_thinking_block, ensure_text_block, close_content_blocks, stop_tools,
  start_tool_block, emit_tool_delta, emit_error, launch_tool, allocate_index,
}
use claude_unbound.Sse.Wire.{Wire, accept, check, check-append, check-one, opened, closed}
use claude_unbound.Sse.Blocks.{Agrees, AreApart, tool_open, tools_show}
use claude_unbound.Sse.Moves.{
  closed_text-Agrees, closed_thinking-Agrees, opened_text-Agrees, opened_thinking-Agrees,
  passed-Agrees, opened_tool-Agrees, kept_tool-Agrees,
}

-- From an agreeing client, under `P`, the client accepts the events and agrees again, with `Q`.
abbrev pub Moves :
    (SseBuilder → Type 0) → (SseBuilder → SseBuilder × List Event) → (SseBuilder → Type 0) → Type 0
Moves P f Q =
    (s : SseBuilder) (w : Wire)
    → Agrees s.blocks w
    → P s
    → (v : Wire) × (check (f s).1 w ≡ some v) × Agrees (f s).0.blocks v × Q (f s).0

abbrev pub Any : SseBuilder → Type 0
Any s = Unit {0}

abbrev pub Thoughtless : SseBuilder → Type 0
Thoughtless s = s.blocks.thinking_started ≡ false

abbrev pub Silent : SseBuilder → Type 0
Silent s = s.blocks.text_started ≡ false

abbrev pub Thinks : SseBuilder → Type 0
Thinks s = s.blocks.thinking_started ≡ true

abbrev pub Speaks : SseBuilder → Type 0
Speaks s = s.blocks.text_started ≡ true

Moves-andthen :
    (P Q R : SseBuilder → Type 0) (f g : SseBuilder → SseBuilder × List Event)
    → Moves P f Q
    → Moves Q g R
    → Moves P (andthen f g) R
Moves-andthen P Q R f g mf mg s w a p =
    let (v, run, agrees, q) = mf s w a p in
    let (u, run', agrees', r) = mg (f s).0 v agrees q in
    (u, check-append (f s).1 (g (f s).0).1 w v run ∙ run', agrees', r)

-- The test of a client on an open block.
open_text :
    (s : SseBuilder) (w : Wire) (i : ℕ)
    → Agrees s.blocks w
    → Speaks s
    → s.blocks.text_index ≡ pos i
    → w.open_at i ≡ true
open_text s w i a on e = ground (arith, a.same i)

open_thinking :
    (s : SseBuilder) (w : Wire) (i : ℕ)
    → Agrees s.blocks w
    → Thinks s
    → s.blocks.thinking_index ≡ pos i
    → w.open_at i ≡ true
open_thinking s w i a on e = ground (arith, a.same i)

module _ (P : SseBuilder → Type 0) where
  stop_text_if-Moves : Moves P stop_text_if Any
  unfolding stop_text_if accept stop_text_block
  stop_text_if-Moves s w a p = elim (Bool-cases s.blocks.text_started) [
    | inr off ↦ simp off (w, unfold check in refl, a, tt)
    | inl on ↦
        let (i, e, lt) = a.text_placed on in
        simp on (
          closed i w,
          check-one (content_block_stop s.blocks.text_index) w (closed i w)
              (unfold accept in rw e (ground (arith, open_text s w i a on e))),
          closed_text-Agrees s.blocks w a i on e,
          tt,
        )
  ]

  stop_thinking_if-Moves : Moves P stop_thinking_if Any
  unfolding stop_thinking_if accept stop_thinking_block
  stop_thinking_if-Moves s w a p = elim (Bool-cases s.blocks.thinking_started) [
    | inr off ↦ simp off (w, unfold check in refl, a, tt)
    | inl on ↦
        let (i, e, lt) = a.thinking_placed on in
        simp on (
          closed i w,
          check-one (content_block_stop s.blocks.thinking_index) w (closed i w)
              (unfold accept in rw e (ground (arith, open_thinking s w i a on e))),
          closed_thinking-Agrees s.blocks w a i on e,
          tt,
        )
  ]

pub started-accepted :
    (b : ContentBlockManager) (w : Wire) (block : Block)
    → Agrees b w
    → accept (content_block_start (pos b.next_index) block) w ≡ some (opened b.next_index w)
unfolding accept
started-accepted b w block a = ground (arith, a.next)

start_text_if-Moves : Moves Any start_text_if Speaks
unfolding start_text_if start_text_block allocate_index
start_text_if-Moves s w a p = elim (Bool-cases s.blocks.text_started) [
  | inl on ↦ simp on (w, unfold check in refl, a, refl)
  | inr off ↦ simp off (
    opened s.blocks.next_index w,
    check-one (content_block_start (pos s.blocks.next_index) text) w (opened s.blocks.next_index w)
        (started-accepted s.blocks w text a),
    opened_text-Agrees s.blocks w a off,
    refl,
  )
]

start_thinking_if-Moves : Moves Any start_thinking_if Thinks
unfolding start_thinking_if start_thinking_block allocate_index
start_thinking_if-Moves s w a p = elim (Bool-cases s.blocks.thinking_started) [
  | inl on ↦ simp on (w, unfold check in refl, a, refl)
  | inr off ↦ simp off (
    opened s.blocks.next_index w,
    check-one (content_block_start (pos s.blocks.next_index) thinking) w
        (opened s.blocks.next_index w) (started-accepted s.blocks w thinking a),
    opened_thinking-Agrees s.blocks w a off,
    refl,
  )
]

pub emit_text_delta-Moves : (content : String) → Moves Speaks (emit_text_delta content) Any
unfolding emit_text_delta
emit_text_delta-Moves content s w a on =
    let (i, e, lt) = a.text_placed on in
    (
      w,
      check-one (content_block_delta s.blocks.text_index (text_delta content)) w w
          (unfold accept in rw e (ground (arith, open_text s w i a on e))),
      a,
      tt,
    )

pub emit_thinking_delta-Moves : (content : String) → Moves Thinks (emit_thinking_delta content) Any
unfolding emit_thinking_delta
emit_thinking_delta-Moves content s w a on =
    let (i, e, lt) = a.thinking_placed on in
    (
      w,
      check-one (content_block_delta s.blocks.thinking_index (thinking_delta content)) w w
          (unfold accept in rw e (ground (arith, open_thinking s w i a on e))),
      a,
      tt,
    )

pub close_content_blocks-Moves : Moves Any close_content_blocks Any
unfolding close_content_blocks
close_content_blocks-Moves =
    Moves-andthen Any Any Any stop_thinking_if stop_text_if (stop_thinking_if-Moves Any)
      (stop_text_if-Moves Any)

-- A start, where nothing is open, a delta and a stop, where something is.
pub start_text_block-Moves : Moves Silent start_text_block Speaks
unfolding start_text_block allocate_index
start_text_block-Moves s w a off = (
  opened s.blocks.next_index w,
  check-one (content_block_start (pos s.blocks.next_index) text) w (opened s.blocks.next_index w)
      (started-accepted s.blocks w text a),
  opened_text-Agrees s.blocks w a off,
  refl,
)

pub start_thinking_block-Moves : Moves Thoughtless start_thinking_block Thinks
unfolding start_thinking_block allocate_index
start_thinking_block-Moves s w a off = (
  opened s.blocks.next_index w,
  check-one (content_block_start (pos s.blocks.next_index) thinking) w
      (opened s.blocks.next_index w) (started-accepted s.blocks w thinking a),
  opened_thinking-Agrees s.blocks w a off,
  refl,
)

pub stop_text_block-Moves : Moves Speaks stop_text_block Any
unfolding stop_text_block
stop_text_block-Moves s w a on =
    let (i, e, lt) = a.text_placed on in
    (
      closed i w,
      check-one (content_block_stop s.blocks.text_index) w (closed i w)
          (unfold accept in rw e (ground (arith, open_text s w i a on e))),
      closed_text-Agrees s.blocks w a i on e,
      tt,
    )

pub stop_thinking_block-Moves : Moves Thinks stop_thinking_block Any
unfolding stop_thinking_block
stop_thinking_block-Moves s w a on =
    let (i, e, lt) = a.thinking_placed on in
    (
      closed i w,
      check-one (content_block_stop s.blocks.thinking_index) w (closed i w)
          (unfold accept in rw e (ground (arith, open_thinking s w i a on e))),
      closed_thinking-Agrees s.blocks w a i on e,
      tt,
    )

-- Reasoning and text, as the providers emit them: the block is made sure of, and a delta follows.
abbrev pub think : String → SseBuilder → SseBuilder × List Event
think content = andthen ensure_thinking_block (emit_thinking_delta content)

abbrev pub say : String → SseBuilder → SseBuilder × List Event
say content = andthen ensure_text_block (emit_text_delta content)

pub think-Moves : (content : String) → Moves Any (think content) Any
unfolding ensure_thinking_block
think-Moves content =
    Moves-andthen Any Thinks Any ensure_thinking_block (emit_thinking_delta content)
      (Moves-andthen Any Any Thinks stop_text_if start_thinking_if (stop_text_if-Moves Any)
        start_thinking_if-Moves)
      (emit_thinking_delta-Moves content)

pub say-Moves : (content : String) → Moves Any (say content) Any
unfolding ensure_text_block
say-Moves content =
    Moves-andthen Any Speaks Any ensure_text_block (emit_text_delta content)
      (Moves-andthen Any Any Speaks stop_thinking_if start_text_if (stop_thinking_if-Moves Any)
        start_text_if-Moves)
      (emit_text_delta-Moves content)

-- A block in three events, at the next index.
block-accepted :
    (b : ContentBlockManager) (w : Wire) (block : Block) (d : Delta)
    → Agrees b w
    → check
        (content_block_start (pos b.next_index) block
          ∷ content_block_delta (pos b.next_index) d
          ∷ content_block_stop (pos b.next_index)
          ∷ [])
        w
      ≡ some (closed b.next_index (opened b.next_index w))
unfolding check accept
block-accepted b w block d a = ground (arith, a.next)

pub heuristic-Moves :
    (id name input : String) → Moves Any (iter_heuristic_tool_use_sse id name input) Any
unfolding iter_heuristic_tool_use_sse whole_tool allocate_index
heuristic-Moves id name input =
    Moves-andthen Any Any Any close_content_blocks (whole_tool id name input)
      close_content_blocks-Moves
      (λ s w a p. (
        closed s.blocks.next_index (opened s.blocks.next_index w),
        block-accepted s.blocks w (tool_use id name none) (input_json_delta input) a,
        passed-Agrees s.blocks w a,
        tt,
      ))

pub emit_error-Moves : (msg : String) → Moves Any (emit_error msg) Any
unfolding emit_error allocate_index
emit_error-Moves msg s w a p = (
  closed s.blocks.next_index (opened s.blocks.next_index w),
  block-accepted s.blocks w text (text_delta msg) a,
  passed-Agrees s.blocks w a,
  tt,
)

-- The tool has no block yet.
abbrev pub IsUnstarted : ℕ → SseBuilder → Type 0
IsUnstarted k s =
    (old : ToolCallState) → get k s.blocks.tool_states ≡ some old → old.started ≡ false

launched :
    (i : ℕ) (tool_id name : String) (extra : Option Extra) (old : Option ToolCallState)
    → ((launch_tool i tool_id name extra old).block_index ≡ pos i)
      × ((launch_tool i tool_id name extra old).started ≡ true)
unfolding launch_tool
launched i tool_id name extra none = (refl, refl)
launched i tool_id name extra (some st) = (refl, refl)

pub start_tool_block-Moves :
    (k : ℕ) (tool_id name : String) (extra : Option Extra)
    → Moves (IsUnstarted k) (start_tool_block k tool_id name extra) Any
unfolding start_tool_block allocate_index
start_tool_block-Moves k tool_id name extra s w a new =
    let n = s.blocks.next_index in
    let st = launch_tool n tool_id name extra (get k s.blocks.tool_states) in
    let l = launched n tool_id name extra (get k s.blocks.tool_states) in
    (
      opened n w,
      check-one (content_block_start (pos n) (tool_use tool_id name (shown extra))) w (opened n w)
          (started-accepted s.blocks w (tool_use tool_id name (shown extra)) a),
      opened_tool-Agrees s.blocks w a k st l.0 l.1 new,
      tt,
    )

pub tool_placed :
    (n k : ℕ) (st : ToolCallState) (t : Table ToolCallState)
    → AreApart n t
    → get k t ≡ some st
    → st.started ≡ true
    → (i : ℕ) × (st.block_index ≡ pos i) × (i < n)
unfolding get
tool_placed n k st [] a g on = cc
tool_placed n k st ((j, s) ∷ t) a g on = elim (Bool-cases (eqb j k)) [
  | inl e ↦
      let same : s ≡ st = ground arith in
      subst (λ z. (i : ℕ) × (z.block_index ≡ pos i) × (i < n)) same
        (a.0 (ap (λ z. z.started) same ∙ on))
  | inr e ↦ tool_placed n k st t a.2 (rw e at g) on
]

-- A delta of a tool that has its block.
module _ (k : ℕ) (json : String) (s : SseBuilder) (st : ToolCallState) where
  abbrev after_delta : SseBuilder × List Event
  after_delta = (
    with_blocks s (record (s.blocks) {
      tool_states = put k (record st { contents = st.contents ++ json ∷ [] }) s.blocks.tool_states;
    }),
    content_block_delta st.block_index (input_json_delta json) ∷ [],
  )

  delta_run : get k s.blocks.tool_states ≡ some st → emit_tool_delta k json s ≡ some after_delta
  unfolding emit_tool_delta
  delta_run g = rw (g, emit_tool_delta) refl

  pub emit_tool_delta-Agrees :
      (r : SseBuilder × List Event) (w : Wire)
      → Agrees s.blocks w
      → get k s.blocks.tool_states ≡ some st
      → st.started ≡ true
      → emit_tool_delta k json s ≡ some r
      → (v : Wire) × (check r.1 w ≡ some v) × Agrees r.0.blocks v
  emit_tool_delta-Agrees r w a g on e =
      let (i, at_i, lt) =
        tool_placed s.blocks.next_index k st s.blocks.tool_states a.tools_apart g on in
      let shows = tool_open k i st s.blocks.tool_states g on at_i in
      let same : after_delta ≡ r = some_injective (sym (delta_run g) ∙ e) in
      subst
        (λ (z : SseBuilder × List Event). (v : Wire) × (check z.1 w ≡ some v) × Agrees z.0.blocks v)
        same
        (
          w,
          check-one (content_block_delta st.block_index (input_json_delta json)) w w
              (unfold accept in rw at_i (ground (arith, a.same i))),
          kept_tool-Agrees s.blocks w a k (record st { contents = st.contents ++ json ∷ [] }) st g
              refl refl,
        )
    where
      some_injective : {x y : SseBuilder × List Event} → some x ≡ some y → x ≡ y
      some_injective h = cc

-- The stop events of the tools close what is open, if that is what the tools show.
pub stop_tools-closes :
    (n : ℕ) (t : Table ToolCallState) (w : Wire)
    → AreApart n t
    → ((i : ℕ) → w.open_at i ≡ tools_show t i)
    → (v : Wire) × (check (stop_tools t) w ≡ some v) × ((i : ℕ) → v.open_at i ≡ false)
unfolding stop_tools check
stop_tools-closes n [] w a same = (w, refl, same)
stop_tools-closes n ((k, st) ∷ t) w a same = elim (Bool-cases st.started) [
  | inr off ↦ rw off (stop_tools-closes n t w a.2 (λ i. ground (arith, same i)))
  | inl on ↦
      let (i, at_i, lt) = a.0 on in
      let (v, run, empty) =
        stop_tools-closes n t (closed i w) a.2 (λ j. ground (arith, same j, a.1 j)) in
      let first : accept (content_block_stop st.block_index) w ≡ some (closed i w) =
        unfold accept in rw at_i (ground (arith, same i)) in
      (v, rw on (rw first run), empty)
]

stop-next :
    (index : ℤ) (w v : Wire) → accept (content_block_stop index) w ≡ some v → v.next ≡ w.next
unfolding accept
stop-next (pos i) w v h = ground arith
stop-next (negsuc i) w v h = cc

-- A stop event starts no block.
pub stop_tools-next :
    (t : Table ToolCallState) (w v : Wire) → check (stop_tools t) w ≡ some v → v.next ≡ w.next
unfolding stop_tools check
stop_tools-next [] w v h = cc
stop_tools-next ((k, st) ∷ t) w v h = elim (Bool-cases st.started) [
  | inr off ↦ stop_tools-next t w v (rw off at h)
  | inl on ↦ elim (Option-cases (accept (content_block_stop st.block_index) w)) [
    | inl refused ↦ cc
    | inr (u, first) ↦
        let rest : check (stop_tools t) u ≡ some v = rw (on, first) at h in
        stop_tools-next t u v rest ∙ stop-next st.block_index w u first
  ]
]
