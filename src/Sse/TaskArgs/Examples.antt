-- ===== src/Sse/TaskArgs/Examples.antt =====
-- Runs of the Task arguments of core/anthropic/sse.py, with a parser of two texts.
use mathlib.Core.Option
use claude_unbound.Prelude.{
  String, Bool, true, false, ◌≡◌, refl, some, [], ◌∷◌, ◌==◌, if◌then◌else◌,
}
use claude_unbound.Prelude.Dict
use claude_unbound.Prelude.Dict.{Dict}
use claude_unbound.Prelude.Table.{get, put}
use claude_unbound.Sse.{ContentBlockManager, no_blocks, new_tool}
use claude_unbound.Sse.TaskArgs.{
  Loaded, invalid, object, not_object, nothing, answer, buffer_task_args,
  normalize_task_run_in_background, buffer_task_args-once,
}

-- A value is whether it is `True`.
abbrev reads : String → Loaded Bool
reads s =
    if s == "{go}"
    then object (("run_in_background", true) ∷ [])
    else if s == "1"
    then not_object
    else invalid

abbrev is_false : Bool → Bool
is_false true = false
is_false false = true

abbrev one_task : ContentBlockManager
one_task = record no_blocks {
  tool_states = (0, record (new_tool "Task") { task_arg_buffer = "{g" }) ∷ [];
}

abbrev gave : ContentBlockManager
gave = record no_blocks {
  tool_states = (0, record (new_tool "Task") { task_args_emitted = true }) ∷ [];
}

gave_lem :
    buffer_task_args reads is_false false 0 "o}" one_task
    ≡ (gave, answer (("run_in_background", false) ∷ []))
unfolding buffer_task_args get put normalize_task_run_in_background Dict.get Dict.put
gave_lem = refl

buffer_task_args-once_example :
    (Option.map is_false (Dict.get "run_in_background" (("run_in_background", false) ∷ []))
      ≡ some true)
    × ((more : String) → buffer_task_args reads is_false false 0 more gave ≡ (gave, nothing))
buffer_task_args-once_example =
    buffer_task_args-once reads is_false false 0 "o}" one_task gave
      (("run_in_background", false) ∷ []) refl gave_lem

abbrev print : Dict Bool → String
print d = "{}"
