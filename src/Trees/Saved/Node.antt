-- ===== src/Trees/Saved/Node.antt =====
-- A node that is saved and loaded (messaging/trees/data.py).
use claude_unbound.Prelude.{ℕ, String, true, ◌≡◌, refl, Option, none, some, truthy}
use claude_unbound.Trees.Json.{loaded, as_text?-text?, as_texts-texts, as_text?, ◌>>=◌}
use claude_unbound.Trees.Node.{MessageNode, MessageState, pending, in_progress, completed, error}
use claude_unbound.Trees.Saved.{
  node_to_dict, node_from_dict, state_of, state_value, time_of?, time?, incoming_from_dict,
}

-- What a node keeps: the platform's object, the status message of the incoming message, its time and
-- the context are not saved.
abbrev pub kept : ℕ → MessageNode → MessageNode
kept now n = record n {
  incoming = record (n.incoming) { status_message_id = none; timestamp = now; raw_event = none };
  context = none;
}

state_of-state_value : (s : MessageState) → state_of (state_value s) ≡ loaded s
unfolding state_of
state_of-state_value pending = refl
state_of-state_value in_progress = refl
state_of-state_value completed = refl
state_of-state_value error = refl

module _ (isoformat : ℕ → String) (fromisoformat : String → Option ℕ)
    (inverse : (t : ℕ) → fromisoformat (isoformat t) ≡ some t)
    (written : (t : ℕ) → truthy (isoformat t) ≡ true) where
  time-round_trip :
      (o : Option ℕ)
      → (as_text? (time? isoformat fromisoformat o) >>= time_of? isoformat fromisoformat) ≡ loaded o
  time-round_trip none = refl
  time-round_trip (some t) = simp (written t, inverse t)

  pub node_from_dict-node_to_dict :
      (now : ℕ) (n : MessageNode)
      → node_from_dict isoformat fromisoformat now (node_to_dict isoformat fromisoformat n)
        ≡ loaded (kept now n)
  unfolding node_from_dict node_to_dict incoming_from_dict
  node_from_dict-node_to_dict now n =
      simp (as_text?-text?, as_texts-texts, state_of-state_value, inverse, time-round_trip)
