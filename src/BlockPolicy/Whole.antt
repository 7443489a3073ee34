-- ===== src/BlockPolicy/Whole.antt =====
-- The whole stream that core/anthropic/native_sse_block_policy.py sends on: nothing that is wanted is
-- lost, and it has the types of its blocks.
use mathlib.Core.List.{Sublist}
use mathlib.Core.List.Sublist
use claude_unbound.Prelude.{
  ℕ, String, Bool, ◌≡◌, refl, sym, ap, ap₂, ◌∙◌, subst, Option, none, some, List, [], ◌∷◌, ◌++◌,
  map,
}
use claude_unbound.Prelude.Texts.{Text}
use claude_unbound.Prelude.Table.{get}
use claude_unbound.Sse.Wire.{Wire, nothing_sent, check}
use claude_unbound.Sse.Blocks.{tools_show}
use claude_unbound.BlockPolicy.State.{
  ContentBlock, Delta, Upstream, content_block_start, content_block_delta, content_block_stop,
  other, Sent, Answer, nothing, passed, sent, PolicyState, new_state,
}
use claude_unbound.BlockPolicy.{
  transform_native_sse_block_event, transform_start, transform_delta, transform_stop,
}
use claude_unbound.BlockPolicy.Client.{as_event, as_tools}
use claude_unbound.BlockPolicy.Orderly.{IsOrderly, renumbered, followed?, run}
use claude_unbound.BlockPolicy.Contract.{
  set_at, block_type_for, wanted_delta, wanted_start, hidden_after, IsTyped, IsTypedUpstream,
  types_after, deltas_of, starts_of, wanted_deltas, wanted_starts,
}
use claude_unbound.BlockPolicy.Typed.{Typed, IsTyped-append, deltas_of-append, starts_of-append}
use claude_unbound.BlockPolicy.Carried.{
  Carries, IsCarried, start-IsCarried, delta-IsCarried, stop-IsCarried,
}
use claude_unbound.BlockPolicy.Accepted.{run-accepted}

abbrev state_or : PolicyState → Option (PolicyState × List Sent) → PolicyState
state_or s none = s
state_or s (some (u, out)) = u

abbrev sent_or : Option (PolicyState × List Sent) → List Sent
sent_or none = []
sent_or (some (u, out)) = out

followed_parts :
    (o : Option (List Sent)) (r : Option (PolicyState × List Sent)) (s : PolicyState)
    (out : List Sent)
    → followed? o r ≡ some (s, out)
    → (first later : List Sent) × (o ≡ some first) × (r ≡ some (s, later)) × (first ++ later ≡ out)
followed_parts none r s out e = cc
followed_parts (some first) none s out e = cc
followed_parts (some first) (some (u, later)) s out e =
    (first, later, refl, ap (λ z. some (z, later)) (ap (state_or s) e), ap sent_or e)

module _ (kinds types : ℕ → Option Text) (hidden : List ℕ) (deltas : List Delta)
    (starts : List ContentBlock) where
  carried :
      (e : Upstream) (s : PolicyState) (a : Answer) (out : List Sent)
      → renumbered e passed ≡ none
      → renumbered e a ≡ some out
      → IsCarried kinds types hidden deltas starts (s, a)
      → Carries kinds types hidden deltas starts s out
  carried e s nothing [] raw same c = c
  carried e s nothing (x ∷ out) raw same c = cc
  carried e s passed out raw same c = cc
  carried e s (sent first) out raw same c =
      subst (Carries kinds types hidden deltas starts s) (cc) c

abbrev IsWhole : (ℕ → Option Text) → List Delta → List ContentBlock → List Sent → Type 0
IsWhole types deltas starts out =
    IsTyped types out × (deltas_of out ≡ deltas) × Sublist starts (starts_of out)

joined :
    (kinds types : ℕ → Option Text) (hidden : List ℕ) (deltas later_deltas : List Delta)
    (starts later_starts : List ContentBlock) (s : PolicyState) (first later out : List Sent)
    → Carries kinds types hidden deltas starts s first
    → IsWhole (types_after types first) later_deltas later_starts later
    → first ++ later ≡ out
    → IsWhole types (deltas ++ later_deltas) (starts ++ later_starts) out
joined kinds types hidden deltas later_deltas starts later_starts s first later out c w e =
    subst (IsWhole types (deltas ++ later_deltas) (starts ++ later_starts)) e (
      IsTyped-append types first later c.typed w.0,
      deltas_of-append first later ∙ ap₂ ◌++◌ c.all w.1,
      subst (Sublist (starts ++ later_starts)) (sym (starts_of-append first later))
          (Sublist.append c.some_of w.2),
    )

module _ (decimal : ℕ → String) (thinking_enabled : Bool) where
  abbrev next : Upstream → PolicyState → PolicyState × Answer
  next e s = transform_native_sse_block_event decimal thinking_enabled e s

  -- An event, and then the others.
  step-IsWhole :
      (e : Upstream) (es : List Upstream) (kinds types : ℕ → Option Text) (hidden : List ℕ)
      (deltas : List Delta) (starts : List ContentBlock) (s u : PolicyState) (out : List Sent)
      → ((first : List Sent)
          → renumbered e (next e s).1 ≡ some first
          → Carries kinds types hidden deltas starts (next e s).0 first)
      → ((later_types : ℕ → Option Text) (later : List Sent)
          → Typed (next e s).0.next_index (next e s).0.by_upstream kinds later_types
          → run decimal thinking_enabled es (next e s).0 ≡ some (u, later)
          → IsWhole later_types
              (wanted_deltas thinking_enabled (next e s).0.dropped_indexes es)
              (wanted_starts thinking_enabled es)
              later)
      → run decimal thinking_enabled (e ∷ es) s ≡ some (u, out)
      → IsWhole types
          (deltas ++ wanted_deltas thinking_enabled hidden es)
          (starts ++ wanted_starts thinking_enabled es)
          out
  unfolding run
  step-IsWhole e es kinds types hidden deltas starts s u out carries others done =
      let (first, later, is_first, is_later, all) =
        followed_parts (renumbered e (next e s).1) (run decimal thinking_enabled es (next e s).0) u
          out done in
      let c = carries first is_first in
      joined kinds types hidden deltas (wanted_deltas thinking_enabled hidden es) starts
        (wanted_starts thinking_enabled es) (next e s).0 first later out c
        (subst
          (λ l.
            IsWhole (types_after types first) (wanted_deltas thinking_enabled l es)
              (wanted_starts thinking_enabled es) later)
          c.hides (others (types_after types first) later c.keeps is_later))
        all

  run-IsWhole :
      (es : List Upstream) (kinds types : ℕ → Option Text) (s u : PolicyState) (out : List Sent)
      → Typed s.next_index s.by_upstream kinds types
      → IsTypedUpstream kinds es
      → run decimal thinking_enabled es s ≡ some (u, out)
      → IsWhole types
          (wanted_deltas thinking_enabled s.dropped_indexes es)
          (wanted_starts thinking_enabled es)
          out
  unfolding transform_native_sse_block_event transform_start transform_delta transform_stop run
  run-IsWhole [] kinds types s u out h t e =
      subst (IsWhole types [] []) (ap sent_or e) (tt, refl, Sublist.refl [])
  run-IsWhole (content_block_start (some i) (some b) ∷ es) kinds types s u out h t e =
      step-IsWhole (content_block_start (some i) (some b)) es (set_at i b.type kinds) types
        (hidden_after thinking_enabled i b s.dropped_indexes) [] (wanted_start thinking_enabled b) s
        u out
        (λ first same.
          carried _ types _ [] _ (content_block_start (some i) (some b)) _ _ first refl same
            (start-IsCarried thinking_enabled kinds types s h i b t.0))
        (λ later_types later h' r. run-IsWhole es _ later_types _ u later h' t.1 r) e
  run-IsWhole (content_block_delta (some i) (some d) ∷ es) kinds types s u out h t e =
      step-IsWhole (content_block_delta (some i) (some d)) es (set_at i (block_type_for d) kinds)
        types s.dropped_indexes (wanted_delta thinking_enabled s.dropped_indexes i d) [] s u out
        (λ first same.
          carried _ types _ _ [] (content_block_delta (some i) (some d)) _ _ first refl same
            (delta-IsCarried thinking_enabled kinds types s h decimal i d t.0))
        (λ later_types later h' r. run-IsWhole es _ later_types _ u later h' t.1 r) e
  run-IsWhole (content_block_stop (some i) ∷ es) kinds types s u out h t e =
      step-IsWhole (content_block_stop (some i)) es kinds types s.dropped_indexes [] [] s u out
        (λ first same.
          carried kinds types _ [] [] (content_block_stop (some i)) _ _ first refl same
            (stop-IsCarried thinking_enabled kinds types s h i))
        (λ later_types later h' r. run-IsWhole es _ later_types _ u later h' t r) e
  run-IsWhole (other ∷ es) kinds types s u out h t e =
      step-IsWhole other es kinds types s.dropped_indexes [] [] s u out
        (λ first same.
          let none_sent : [] ≡ first = cc in
          subst (Carries kinds types s.dropped_indexes [] [] s) none_sent
            (record { typed = tt; keeps = h; hides = refl; all = refl; some_of = Sublist.refl [] }))
        (λ later_types later h' r. run-IsWhole es _ later_types _ u later h' t r) e
  run-IsWhole (content_block_start none none ∷ es) kinds types s u out h t e = cc
  run-IsWhole (content_block_start none (some b) ∷ es) kinds types s u out h t e = cc
  run-IsWhole (content_block_start (some i) none ∷ es) kinds types s u out h t e = cc
  run-IsWhole (content_block_delta none none ∷ es) kinds types s u out h t e = cc
  run-IsWhole (content_block_delta none (some d) ∷ es) kinds types s u out h t e = cc
  run-IsWhole (content_block_delta (some i) none ∷ es) kinds types s u out h t e = cc
  run-IsWhole (content_block_stop none ∷ es) kinds types s u out h t e = cc

new_state-Typed : Typed 0 [] (λ i. none) (λ i. none)
unfolding get
new_state-Typed = record { below = λ k seg g. cc; shown = λ k seg g. cc; kind = λ k seg g. cc }

-- Let the provider start every block once and with a type, send reasoning and stops only for blocks that
-- have started, send only deltas of the known kinds, and each for a block of its type (a text or tool
-- delta may come without a start). Then, whether thinking is enabled or not: no block event goes on with
-- the provider's index; the client accepts everything that is sent, each delta is for a block of its
-- type, and the client has open exactly the blocks of the open segments; the deltas that are sent are, in
-- their order, exactly those of the provider that are neither of a hidden type nor for a hidden block;
-- and the starts of all blocks that are not hidden are among those sent, in their order.
pub run-carries :
    (decimal : ℕ → String) (thinking_enabled : Bool) (es : List Upstream)
    → IsOrderly [] es
    → IsTypedUpstream (λ i. none) es
    → (s : PolicyState) × (out : List Sent) × (run decimal thinking_enabled es new_state
        ≡ some (s, out))
      × (v : Wire) × (check (map as_event out) nothing_sent ≡ some v)
      × ((i : ℕ) → v.open_at i ≡ tools_show (as_tools s.by_upstream) i)
      × IsTyped (λ i. none) out
      × (deltas_of out ≡ wanted_deltas thinking_enabled [] es)
      × Sublist (wanted_starts thinking_enabled es) (starts_of out)
run-carries decimal thinking_enabled es o t =
    let (s, out, done, v, accepted, open_blocks) = run-accepted decimal thinking_enabled es o in
    let (typed, all, starts) =
      run-IsWhole decimal thinking_enabled es (λ i. none) (λ i. none) new_state s out
        new_state-Typed t done in
    (s, out, done, v, accepted, open_blocks, typed, all, starts)
