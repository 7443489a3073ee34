-- ===== src/Trees/Queue.antt =====
-- messaging/trees/data.py, class _SnapshotQueue: a deque with a set beside it as an index. The
-- set is its membership test.
pub mod Refinement
use claude_unbound.Prelude.{
  ℕ, String, Bool, true, false, ◌||◌, Option, none, some, List, [], ◌∷◌, ◌++◌, ◌==◌, length,
  without, if◌then◌else◌,
}

pub record SnapshotQueue : Type 0 where
  pub deque : List String
  pub set : String → Bool

-- `set.add` and `set.discard`.
abbrev pub add : String → (String → Bool) → String → Bool
add item s x = (item == x) || s x

abbrev pub discard : String → (String → Bool) → String → Bool
discard item s x = if item == x then false else s x

abbrev pub empty : SnapshotQueue
empty = record { deque = []; set = λ x. false }

unfoldable pub put : SnapshotQueue → String → SnapshotQueue
put q item = record { deque = q.deque ++ item ∷ []; set = add item q.set }

unfoldable pub put_nowait : SnapshotQueue → String → SnapshotQueue
put_nowait q item = record { deque = q.deque ++ item ∷ []; set = add item q.set }

popleft : List String → (String → Bool) → Option (String × SnapshotQueue)
popleft [] s = none
popleft (item ∷ rest) s = some (item, record { deque = rest; set = discard item s })

-- `none` is `asyncio.QueueEmpty`.
unfoldable pub get_nowait : SnapshotQueue → Option (String × SnapshotQueue)
unfolding popleft
get_nowait q = popleft q.deque q.set

unfoldable pub qsize : SnapshotQueue → ℕ
qsize q = length q.deque

unfoldable pub get_snapshot : SnapshotQueue → List String
get_snapshot q = q.deque

unfoldable pub remove_if_present : SnapshotQueue → String → Bool × SnapshotQueue
remove_if_present q item =
    if q.set item
    then (true, record { deque = without item q.deque; set = discard item q.set })
    else (false, q)
