-- ===== src/Sse/Notes.antt =====
-- The calls of ContentBlockManager (core/anthropic/sse.py) that write down what is known of a tool, and
-- send nothing.
use claude_unbound.Prelude.{
  ℕ, String, ◌≡◌, refl, Option, none, some, arith, truthy, Bool-cases, Option-cases, inl, inr,
}
use claude_unbound.Prelude.Table.{get, has, get-put}
use claude_unbound.Sse.{
  Extra, extra_truthy, ContentBlockManager, new_tool, ensure_tool_state, set_stream_tool_id,
  set_tool_extra_content, register_tool_name,
}
use claude_unbound.Sse.Wire.{Wire}
use claude_unbound.Sse.Blocks.{Agrees}
use claude_unbound.Sse.Moves.{unstarted_tool-Agrees, kept_tool-Agrees, noted_tool-Agrees}

ensured :
    (k : ℕ) (b : ContentBlockManager)
    → get k (ensure_tool_state k b).0.tool_states ≡ some (ensure_tool_state k b).1
unfolding ensure_tool_state
ensured k b = ground (arith, get-put k k (new_tool "") b.tool_states)

module _ (k : ℕ) (b : ContentBlockManager) (w : Wire) (a : Agrees b w) where
  pub ensure_tool_state-Agrees : Agrees (ensure_tool_state k b).0 w
  unfolding ensure_tool_state
  ensure_tool_state-Agrees = elim (Bool-cases (has k b.tool_states)) [
    | inl e ↦ rw e a
    | inr e ↦
        rw e (unstarted_tool-Agrees b w a k (new_tool "") refl (λ old g. absurd (ground (arith))))
  ]

  pub set_stream_tool_id-Agrees : (id : Option String) → Agrees (set_stream_tool_id k id b) w
  unfolding set_stream_tool_id
  set_stream_tool_id-Agrees none = a
  set_stream_tool_id-Agrees (some id) =
      let (b', st) = ensure_tool_state k b in
      elim (Bool-cases (truthy id)) [
        | inl e ↦ rw e (
            kept_tool-Agrees b' w ensure_tool_state-Agrees k (record st { tool_id = id }) st
              (ensured k b) refl refl)
        | inr e ↦ rw e a
      ]

  pub set_tool_extra_content-Agrees :
      (extra : Option Extra) → Agrees (set_tool_extra_content k extra b) w
  unfolding set_tool_extra_content
  set_tool_extra_content-Agrees extra =
      let (b', st) = ensure_tool_state k b in
      elim (Bool-cases (extra_truthy extra)) [
        | inl e ↦ rw e (
            kept_tool-Agrees b' w ensure_tool_state-Agrees k (record st { extra_content = extra })
              st (ensured k b) refl refl)
        | inr e ↦ rw e a
      ]

  pub register_tool_name-Agrees : (name : String) → Agrees (register_tool_name k name b) w
  unfolding register_tool_name
  register_tool_name-Agrees name =
      noted_tool-Agrees b w a k _ (elim (Option-cases (get k b.tool_states)) [
        | inl e ↦ rw e refl
        | inr (old, e) ↦ rw e (refl, refl)
      ])
