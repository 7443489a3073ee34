-- ===== src/Sse/TaskArgs.antt =====
-- core/anthropic/sse.py: the arguments of a Task tool, which are held back until they are a whole JSON
-- text. `json.loads` and `json.dumps` are parameters: `loads` says whether a text is no JSON, an
-- object, or another value, on which the code calls `get` and so raises `AttributeError`. A value of
-- an object is either Python's `False` or not.
mod Examples
use Prim.Native.String.{◌++◌ as str_append}
use mathlib.Core.Option
use claude_unbound.Prelude.{
  ℕ, String, Bool, true, false, not, ◌&&◌, ◌||◌, ◌≡◌, sym, ap, ◌∙◌, subst, Option, none, some, List,
  [], ◌∷◌, map, arith, eqb, truthy, Option-cases, Bool-cases, inl, inr, if◌then◌else◌,
}
use claude_unbound.Prelude.Dict
use claude_unbound.Prelude.Dict.{Dict, get-put_self}
use claude_unbound.Prelude.Table.{Table, get, put, get-put}
use claude_unbound.Sse.{ToolCallState, ContentBlockManager}

pub data Loaded (V : Type 0) : Type 0 where
  invalid : Loaded V
  object : Dict V → Loaded V
  not_object : Loaded V

-- What a call gives back: `None`, the arguments, or the exception.
pub data Answer (A : Type 0) : Type 0 where
  nothing : Answer A
  answer : A → Answer A
  attribute_error : Answer A

module _ {V : Type 0} (loads : String → Loaded V) (is_false : V → Bool) (false_value : V) where
  is_foreground : Option V → Bool
  is_foreground none = false
  is_foreground (some v) = is_false v

  unfoldable pub normalize_task_run_in_background : Dict V → Dict V
  unfolding is_foreground
  normalize_task_run_in_background d =
      if not (is_foreground (Dict.get "run_in_background" d))
      then Dict.put "run_in_background" false_value d
      else d

  abbrev pub emitted : ToolCallState → ToolCallState
  emitted st = record st { task_args_emitted = true; task_arg_buffer = "" }

  after_load :
      ℕ → ToolCallState → Loaded V → ContentBlockManager → ContentBlockManager × Answer (Dict V)
  unfolding normalize_task_run_in_background
  after_load index st invalid b = (record b { tool_states = put index st b.tool_states }, nothing)
  after_load index st not_object b =
      (record b { tool_states = put index st b.tool_states }, attribute_error)
  after_load index st (object d) b = (
    record b { tool_states = put index (emitted st) b.tool_states },
    answer (normalize_task_run_in_background d),
  )

  buffer_on :
      ℕ
      → String
      → Option ToolCallState
      → ContentBlockManager
      → ContentBlockManager × Answer (Dict V)
  unfolding after_load
  buffer_on index args none b = (b, nothing)
  buffer_on index args (some st) b =
      let text = str_append st.task_arg_buffer args in
      if st.task_args_emitted
      then (b, nothing)
      else after_load index (record st { task_arg_buffer = text }) (loads text) b

  unfoldable pub buffer_task_args :
      ℕ → String → ContentBlockManager → ContentBlockManager × Answer (Dict V)
  unfolding buffer_on
  buffer_task_args index args b = buffer_on index args (get index b.tool_states) b

  -- The loop of `flush_task_arg_buffers`; a text that is no JSON comes out as "{}".
  module _ (dumps : Dict V → String) where
    flushed : Loaded V → Option String
    unfolding normalize_task_run_in_background
    flushed invalid = some "{}"
    flushed (object d) = some (dumps (normalize_task_run_in_background d))
    flushed not_object = none

    abbrev pub add_result : ℕ → String → Answer (List (ℕ × String)) → Answer (List (ℕ × String))
    add_result k out nothing = nothing
    add_result k out attribute_error = attribute_error
    add_result k out (answer rs) = answer ((k, out) ∷ rs)

    unfoldable pub flush_each :
        Table ToolCallState → Table ToolCallState × Answer (List (ℕ × String))
    unfolding flushed
    flush_each [] = ([], answer [])
    flush_each ((k, st) ∷ t) =
        let (t', rs) = flush_each t in
        if not (truthy st.task_arg_buffer) || st.task_args_emitted
        then ((k, st) ∷ t', rs)
        else elim (flushed (loads st.task_arg_buffer)) [
          | none ↦ ((k, st) ∷ t, attribute_error)
          | some out ↦ ((k, emitted st) ∷ t', add_result k out rs)
        ]

    unfoldable pub flush_task_arg_buffers :
        ContentBlockManager → ContentBlockManager × Answer (List (ℕ × String))
    unfolding flush_each
    flush_task_arg_buffers b =
        let (t, rs) = flush_each b.tool_states in (record b { tool_states = t }, rs)

  normalized-foreground :
      is_false false_value ≡ true
      → (d : Dict V)
      → Option.map is_false (Dict.get "run_in_background" (normalize_task_run_in_background d))
        ≡ some true
  unfolding normalize_task_run_in_background is_foreground
  normalized-foreground law d = ground (arith, get-put_self "run_in_background" false_value d)

  emitted-silent :
      (index : ℕ) (more : String) (st : ToolCallState) (b : ContentBlockManager)
      → let b' = record b { tool_states = put index (emitted st) b.tool_states } in
        buffer_task_args index more b' ≡ (b', nothing)
  unfolding buffer_task_args
  emitted-silent index more st b =
      rw (get-put index index (emitted st) b.tool_states) (ground arith)

  after_load-object :
      (index : ℕ) (st : ToolCallState) (r : Loaded V) (b b' : ContentBlockManager) (d : Dict V)
      → after_load index st r b ≡ (b', answer d)
      → (d₀ : Dict V) × (b' ≡ record b { tool_states = put index (emitted st) b.tool_states })
        × (d ≡ normalize_task_run_in_background d₀)
  unfolding after_load
  after_load-object index st invalid b b' d e = cc
  after_load-object index st not_object b b' d e = cc
  after_load-object index st (object d₀) b b' d e = (d₀, cc, cc)

  -- If `buffer_task_args` gives the arguments of a tool out, `run_in_background` is `False` in them, and
  -- whatever fragment comes next for the tool gives nothing and changes nothing.
  pub buffer_task_args-once :
      (index : ℕ) (args : String) (b b' : ContentBlockManager) (d : Dict V)
      → is_false false_value ≡ true
      → buffer_task_args index args b ≡ (b', answer d)
      → (Option.map is_false (Dict.get "run_in_background" d) ≡ some true)
        × ((more : String) → buffer_task_args index more b' ≡ (b', nothing))
  unfolding buffer_task_args
  buffer_task_args-once index args b b' d law e = elim (Option-cases (get index b.tool_states)) [
    | inl none_there ↦ absurd (nothing_out (rw none_there at e))
    | inr (st, there) ↦ elim (Bool-cases st.task_args_emitted) [
      | inl done ↦ absurd (nothing_out (rw (there, buffer_on, done) at e))
      | inr first ↦
          let whole = str_append st.task_arg_buffer args in
          let held : ToolCallState = record st {
            task_arg_buffer = whole;
            task_args_emitted = false;
          } in
          let (d₀, eb, ed) =
            after_load-object index held (loads whole) b b' d (rw (there, buffer_on, first) at e) in
          (
            ap (λ z. Option.map is_false (Dict.get "run_in_background" z)) ed
                ∙ normalized-foreground law d₀,
            λ more.
                subst (λ z. buffer_task_args index more z ≡ (z, nothing)) (sym eb)
                  (emitted-silent index more held b),
          )
    ]
  ]
    where
      nothing_out : ◌≡◌ {A = ContentBlockManager × Answer (Dict V)} (b, nothing) (b', answer d) → ⊥
      nothing_out x = cc
