-- ===== src/Recovery/Holdback.antt =====
-- The holdback buffer of core/anthropic/stream_recovery.py loses no event, repeats none and keeps
-- their order; and it holds none longer, and no more bytes, than it is told to.
use claude_unbound.Prelude.{
  ℕ, ◌+◌, ◌<◌, String, true, false, ◌≡◌, refl, sym, ap, ◌∙◌, List, [], ◌∷◌, ◌++◌, arith, subst,
  append_assoc, append-nil, map,
}
use claude_unbound.Recovery.{RecoveryHoldbackBuffer, new_buffer, flush, push, since}

-- A push: the two readings of the clock, and the event.
pub record Push : Type 0 where
  pub first : ℕ
  pub now : ℕ
  pub event : String

-- The first reading of the clock of the first push; `first` is that of the push that comes now.
abbrev pub first_of : List Push → ℕ → ℕ
first_of [] first = first
first_of (p ∷ ps) first = p.first

map-append :
    (ps qs : List Push)
    → map (λ (p : Push). p.event) (ps ++ qs) ≡ map (λ p. p.event) ps ++ map (λ p. p.event) qs
map-append [] qs = refl
map-append (p ∷ ps) qs = ap (λ z. p.event ∷ z) (map-append ps qs)

first_of-append :
    (ps : List Push) (p : Push) (first : ℕ) → first_of (ps ++ p ∷ []) first ≡ first_of ps p.first
first_of-append [] p first = refl
first_of-append (q ∷ ps) p first = refl

-- As long as nothing is released, all events pushed so far are held, since the first push.
record IsWhole (seen : List Push) (b : RecoveryHoldbackBuffer) : Type 0 where
  all : b.committed ≡ false → b.events ≡ map (λ p. p.event) seen
  began : b.committed ≡ false → (first : ℕ) → since b.started_at first ≡ first_of seen first

module _ (byte_length : String → ℕ) where
  -- The buffer after the pushes, and all that they released.
  unfoldable pub pushes : List Push → RecoveryHoldbackBuffer → RecoveryHoldbackBuffer × List String
  pushes [] b = (b, [])
  pushes (p ∷ ps) b =
      let (b₁, out) = push byte_length p.first p.now p.event b in
      let (b₂, rest) = pushes ps b₁ in (b₂, out ++ rest)

  abbrev pub total : List String → ℕ
  total [] = 0
  total (e ∷ es) = byte_length e + total es

  total-append : (es fs : List String) → total (es ++ fs) ≡ total es + total fs
  total-append [] fs = omega arith
  total-append (e ∷ es) fs = omega (arith, total-append es fs)

  -- A committed buffer holds nothing, and the bytes are those of the held events.
  record IsHolding (seconds cap : ℕ) (b : RecoveryHoldbackBuffer) : Type 0 where
    waits : b.holdback_seconds ≡ seconds
    capped : b.max_bytes ≡ cap
    empty : b.committed ≡ true → b.events ≡ []
    counted : b.bytes ≡ total b.events

  -- What one push releases and what stays held make up what was held and the event.
  push-keeps :
      (first now : ℕ) (event : String) (b : RecoveryHoldbackBuffer) {seconds cap : ℕ}
      → IsHolding seconds cap b
      → let (u, out) = push byte_length first now event b in
        out ++ u.events ≡ b.events ++ event ∷ []
  unfolding push flush
  push-keeps first now event b h = ground (arith, h.empty, append-nil (b.events ++ event ∷ []))

  push-IsHolding :
      (first now : ℕ) (event : String) (b : RecoveryHoldbackBuffer) {seconds cap : ℕ}
      → IsHolding seconds cap b
      → IsHolding seconds cap (push byte_length first now event b).0
  unfolding push flush
  push-IsHolding first now event b h = record {
    waits = ground (arith, h.waits);
    capped = ground (arith, h.capped);
    empty = ground (arith, h.empty);
    counted = ground (arith, h.counted, total-append b.events (event ∷ []));
  }

  pushes-keeps :
      (ps : List Push) (b : RecoveryHoldbackBuffer) {seconds cap : ℕ}
      → IsHolding seconds cap b
      → let (u, out) = pushes ps b in
        (out ++ u.events ≡ b.events ++ map (λ p. p.event) ps) × IsHolding seconds cap u
  unfolding pushes
  pushes-keeps [] b h = (sym (append-nil b.events), h)
  pushes-keeps (p ∷ ps) b h =
      let (b₁, out) = push byte_length p.first p.now p.event b in
      let h₁ = push-IsHolding p.first p.now p.event b h in
      let one = push-keeps p.first p.now p.event b h in
      let (rest, h₂) = pushes-keeps ps b₁ h₁ in
      let (b₂, more) = pushes ps b₁ in
      (
        append_assoc out more b₂.events
            ∙ ap (λ z. out ++ z) rest
            ∙ sym (append_assoc out b₁.events (map (λ q. q.event) ps))
            ∙ ap (λ z. z ++ map (λ (q : Push). q.event) ps) one
            ∙ append_assoc b.events (p.event ∷ []) (map (λ q. q.event) ps),
        h₂,
      )

  new-IsHolding : (seconds cap : ℕ) → IsHolding seconds cap (new_buffer seconds cap)
  unfolding new_buffer
  new-IsHolding seconds cap = record {
    waits = refl;
    capped = refl;
    empty = λ e. refl;
    counted = refl;
  }

  flush-out :
      (b : RecoveryHoldbackBuffer) {seconds cap : ℕ}
      → IsHolding seconds cap b
      → (flush b).1 ≡ b.events
  unfolding flush
  flush-out b h = ground (arith, h.empty)

  -- Whatever is pushed into a new buffer, and whatever the clock shows: what the pushes released, and
  -- then what a flush releases, are the events in their order, each of them once.
  pub pushes-lossless :
      (seconds cap : ℕ) (ps : List Push)
      → let (b, out) = pushes ps (new_buffer seconds cap) in
        out ++ (flush b).1 ≡ map (λ p. p.event) ps
  unfolding new_buffer
  pushes-lossless seconds cap ps =
      let (b, out) = pushes ps (new_buffer seconds cap) in
      let (all, h) = pushes-keeps ps (new_buffer seconds cap) (new-IsHolding seconds cap) in
      ap (λ z. out ++ z) (flush-out b h) ∙ all

  push-since :
      (p : Push) (b : RecoveryHoldbackBuffer) (first : ℕ)
      → (push byte_length p.first p.now p.event b).0.committed ≡ false
      → (b.committed ≡ false)
        × (since (push byte_length p.first p.now p.event b).0.started_at first
            ≡ since b.started_at p.first)
  unfolding push flush
  push-since p b first off = (ground arith, ground arith)

  push-IsWhole :
      (seen : List Push) (p : Push) (b : RecoveryHoldbackBuffer)
      → IsWhole seen b
      → IsWhole (seen ++ p ∷ []) (push byte_length p.first p.now p.event b).0
  unfolding push flush
  push-IsWhole seen p b w = record {
    all = λ off. ground (arith, w.all, map-append seen (p ∷ []));
    began = λ off first.
        let (held, e) = push-since p b first off in
        e ∙ w.began held p.first ∙ sym (first_of-append seen p first);
  }

  pushes-IsWhole :
      (seen ps : List Push) (b : RecoveryHoldbackBuffer)
      → IsWhole seen b
      → IsWhole (seen ++ ps) (pushes ps b).0
  unfolding pushes
  pushes-IsWhole seen [] b w = subst (λ z. IsWhole z b) (sym (append-nil seen)) w
  pushes-IsWhole seen (p ∷ ps) b w =
      subst (λ z. IsWhole z (pushes ps (push byte_length p.first p.now p.event b).0).0)
        (append_assoc seen (p ∷ []) ps)
        (pushes-IsWhole (seen ++ p ∷ []) ps _ (push-IsWhole seen p b w))

  new-IsWhole : (seconds cap : ℕ) → IsWhole [] (new_buffer seconds cap)
  unfolding new_buffer
  new-IsWhole seconds cap = record { all = λ e. refl; began = λ e first. refl }

  push-within :
      (first now : ℕ) (event : String) (b : RecoveryHoldbackBuffer) {seconds cap : ℕ}
      → IsHolding seconds cap b
      → (push byte_length first now event b).0.committed ≡ false
      → (b.committed ≡ false)
        × (total (b.events ++ event ∷ []) < cap)
        × (now < since b.started_at first + seconds)
  unfolding push flush
  push-within first now event b h off = (
    ground arith,
    ground (arith, h.counted, h.capped, total-append b.events (event ∷ [])),
    ground (arith, h.waits),
  )

  -- After any pushes into a new buffer, a push that leaves it uncommitted: all the events pushed so
  -- far, this one included, are held, and together have fewer bytes than the cap; and this push's
  -- second reading of the clock came less than the holdback time after the first reading of the very
  -- first push.
  pub push-bounded :
      (seconds cap : ℕ) (ps : List Push) (first now : ℕ) (event : String)
      → (push byte_length first now event (pushes ps (new_buffer seconds cap)).0).0.committed
        ≡ false
      → let u = (push byte_length first now event (pushes ps (new_buffer seconds cap)).0).0 in
        (u.events ≡ map (λ p. p.event) ps ++ event ∷ [])
        × (total (map (λ p. p.event) ps ++ event ∷ []) < cap)
        × (now < first_of ps first + seconds)
  push-bounded seconds cap ps first now event off =
      let b = (pushes ps (new_buffer seconds cap)).0 in
      let (kept, h) = pushes-keeps ps (new_buffer seconds cap) (new-IsHolding seconds cap) in
      let w = pushes-IsWhole [] ps (new_buffer seconds cap) (new-IsWhole seconds cap) in
      let (held, few, soon) = push-within first now event b h off in
      let p : Push = record { first = first; now = now; event = event } in
      let after = push-IsWhole ps p b w in
      (
        after.all off ∙ map-append ps (p ∷ []),
        subst (λ z. total (z ++ event ∷ []) < cap) (w.all held) few,
        subst (λ z. now < z + seconds) (w.began held first) soon,
      )
