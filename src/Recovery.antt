-- ===== src/Recovery.antt =====
-- core/anthropic/stream_recovery.py, class RecoveryHoldbackBuffer: it holds events back for a short
-- time, so that a stream that breaks early can be tried again unseen. `byte_length` stands for
-- `len(event.encode("utf-8", errors="replace"))`, and a time is a number of ticks of the clock.
pub mod Holdback
mod Examples
use claude_unbound.Prelude.{
  ℕ, ◌+◌, ◌-◌, String, Bool, true, false, not, ◌||◌, Option, none, some, List, [], ◌∷◌, ◌++◌, leb,
  if◌then◌else◌,
}

pub record RecoveryHoldbackBuffer : Type 0 where
  pub holdback_seconds : ℕ
  pub max_bytes : ℕ
  pub events : List String
  pub bytes : ℕ
  pub started_at : Option ℕ
  pub committed : Bool

unfoldable pub new_buffer : ℕ → ℕ → RecoveryHoldbackBuffer
new_buffer holdback_seconds max_bytes = record {
  holdback_seconds = holdback_seconds;
  max_bytes = max_bytes;
  events = [];
  bytes = 0;
  started_at = none;
  committed = false;
}

unfoldable pub flush : RecoveryHoldbackBuffer → RecoveryHoldbackBuffer × List String
flush b =
    if b.committed
    then (b, [])
    else (record b { committed = true; events = []; bytes = 0; started_at = none }, b.events)

unfoldable pub discard : RecoveryHoldbackBuffer → RecoveryHoldbackBuffer
discard b = record b { events = []; bytes = 0; started_at = none }

unfoldable pub has_buffered : RecoveryHoldbackBuffer → Bool
has_buffered b = elim b.events [ [] ↦ false | e ∷ es ↦ true ]

-- `self._started_at`, set to the clock's first reading if it is not.
abbrev pub since : Option ℕ → ℕ → ℕ
since none now = now
since (some t) now = t

-- The clock is read for the start, if that is not set, and then for the age.
unfoldable pub push :
    (String → ℕ) → ℕ → ℕ → String → RecoveryHoldbackBuffer → RecoveryHoldbackBuffer × List String
unfolding flush
push byte_length first now event b =
    let started : ℕ = since b.started_at first in
    let held : RecoveryHoldbackBuffer = record b {
      started_at = some started;
      events = b.events ++ event ∷ [];
      bytes = b.bytes + byte_length event;
    } in
    if b.committed
    then (b, event ∷ [])
    else if leb b.max_bytes held.bytes || leb (started + b.holdback_seconds) now
    then flush held
    else (held, [])
