-- ===== src/Trees/Queue/Refinement.antt =====
-- The queue of messaging/trees/data.py against a plain first-in first-out list.
use claude_unbound.Prelude.{
  ℕ, String, ◌≡◌, refl, sym, ap, ap₂, ◌∙◌, subst, inl, inr, Bool-cases, Bool, true, false, Option,
  none, some, List, [], ◌∷◌, ◌++◌, arith, eq_iff, eq_refl, length, elem, elem-append, elem-without,
  without, without-absent, IsDistinct, IsDistinct-snoc, IsDistinct-without,
}
use claude_unbound.Trees.Queue.{
  SnapshotQueue, add, discard, empty, put, put_nowait, get_nowait, qsize, get_snapshot,
  remove_if_present,
}

pub data Op : Type 0 where
  puts puts_nowait removes : String → Op
  gets sizes snapshots : Op

pub data Reply : Type 0 where
  done : Reply
  item : Option String → Reply
  flag : Bool → Reply
  count : ℕ → Reply
  items : List String → Reply

taken : SnapshotQueue → Option (String × SnapshotQueue) → Reply × SnapshotQueue
taken q none = (item none, q)
taken q (some (x, q')) = (item (some x), q')

pub exec : Op → SnapshotQueue → Reply × SnapshotQueue
unfolding taken
exec (puts x) q = (done, put q x)
exec (puts_nowait x) q = (done, put_nowait q x)
exec (removes x) q = let (b, q') = remove_if_present q x in (flag b, q')
exec gets q = taken q (get_nowait q)
exec sizes q = (count (qsize q), q)
exec snapshots q = (items (get_snapshot q), q)

pub replies : List Op → SnapshotQueue → List Reply
replies [] q = []
replies (o ∷ os) q = let (r, q') = exec o q in r ∷ replies os q'

-- What the queue promises, on the list of the waiting items alone.
take_first : List String → Reply × List String
take_first [] = (item none, [])
take_first (x ∷ l) = (item (some x), l)

unfoldable pub promise : Op → List String → Reply × List String
unfolding take_first
promise (puts x) l = (done, l ++ x ∷ [])
promise (puts_nowait x) l = (done, l ++ x ∷ [])
promise (removes x) l = (flag (elem x l), without x l)
promise gets l = take_first l
promise sizes l = (count (length l), l)
promise snapshots l = (items l, l)

pub promised : List Op → List String → List Reply
promised [] l = []
promised (o ∷ os) l = let (r, l') = promise o l in r ∷ promised os l'

-- The history never puts an item that is waiting.
abbrev pub NewItem : Op → List String → Type 0
NewItem (puts x) l = elem x l ≡ false
NewItem (puts_nowait x) l = elem x l ≡ false
NewItem _ l = Unit {0}

unfoldable pub IsFresh : List Op → List String → Type 0
unfolding promise
IsFresh [] l = Unit {0}
IsFresh (o ∷ os) l = NewItem o l × IsFresh os (promise o l).1

-- The set holds the items of the deque, and the deque no item twice.
pub record IsCoherent (q : SnapshotQueue) : Type 0 where
  pub index : (x : String) → q.set x ≡ elem x q.deque
  pub distinct : IsDistinct q.deque

pub put-IsCoherent :
    (q : SnapshotQueue) (x : String) → IsCoherent q → elem x q.deque ≡ false → IsCoherent (put q x)
unfolding put
put-IsCoherent q x c new = record {
  index = λ y. ground (arith, c.index y, elem-append y q.deque (x ∷ []));
  distinct = IsDistinct-snoc x q.deque c.distinct new;
}

-- One operation gives the promised reply, leaves the promised list, and keeps the index.
abbrev pub Agrees : Op → SnapshotQueue → Type 0
Agrees o q =
    ((exec o q).0 ≡ (promise o q.deque).0)
    × ((exec o q).1.deque ≡ (promise o q.deque).1)
    × IsCoherent (exec o q).1

get_deque-Agrees :
    (l : List String) (s : String → Bool)
    → IsCoherent (record { deque = l; set = s })
    → Agrees gets (record { deque = l; set = s })
unfolding exec promise get_nowait
get_deque-Agrees [] s c = (refl, refl, c)
get_deque-Agrees (x ∷ l) s c = (
  refl,
  refl,
  record {
    index = λ y. ground (arith, c.index y, c.distinct, eq_iff x y);
    distinct = c.distinct.1;
  },
)

remove-Agrees : (x : String) (q : SnapshotQueue) → IsCoherent q → Agrees (removes x) q
unfolding exec promise remove_if_present
remove-Agrees x q c = elim (Bool-cases (q.set x)) [
  | inl there ↦ (
    rw there (cc (c.index x)),
    rw there,
    rw there (record {
      index = λ y. ground (arith, c.index y, elem-without y x q.deque);
      distinct = IsDistinct-without x q.deque c.distinct;
    }),
  )
  | inr absent ↦ (
    rw absent (cc (c.index x)),
    rw absent (sym (without-absent x q.deque (sym (c.index x) ∙ absent))),
    rw absent c,
  )
]

pub exec-Agrees : (o : Op) (q : SnapshotQueue) → IsCoherent q → NewItem o q.deque → Agrees o q
unfolding exec promise
exec-Agrees (puts x) q c new = (refl, unfold put in refl, put-IsCoherent q x c new)
exec-Agrees (puts_nowait x) q c new =
    (refl, unfold put_nowait in refl, unfold put put_nowait in put-IsCoherent q x c new)
exec-Agrees (removes x) q c new = unfold exec promise in remove-Agrees x q c
exec-Agrees gets q c new = get_deque-Agrees q.deque q.set c
exec-Agrees sizes q c new = (unfold qsize in refl, refl, c)
exec-Agrees snapshots q c new = (unfold get_snapshot in refl, refl, c)

replies-from :
    (os : List Op) (q : SnapshotQueue) (l : List String)
    → q.deque ≡ l
    → IsCoherent q
    → IsFresh os l
    → replies os q ≡ promised os l
unfolding replies promised IsFresh
replies-from [] q l e c fresh = refl
replies-from (o ∷ os) q l e c fresh =
    let agrees : Agrees o q = exec-Agrees o q c (subst (NewItem o) (sym e) fresh.0) in
    let rest : replies os (exec o q).1 ≡ promised os (promise o l).1 =
      replies-from os (exec o q).1 (promise o l).1 (agrees.1 ∙ ap (λ k. (promise o k).1) e) agrees.2
        fresh.1 in
    ap₂ ◌∷◌ (agrees.0 ∙ ap (λ k. (promise o k).0) e) rest

pub empty-IsCoherent : IsCoherent empty
empty-IsCoherent = record { index = λ x. refl; distinct = tt }

-- In any history that never puts an item which is already waiting, every reply of the queue (the
-- item taken, whether an item was removed, the size, the snapshot) is that of a plain list to which
-- items are appended, from whose front they are taken, and out of which they are removed.
pub replies-eq-promised : (os : List Op) → IsFresh os [] → replies os empty ≡ promised os []
replies-eq-promised os fresh = replies-from os empty [] refl empty-IsCoherent fresh

-- From a coherent queue whose first item is x: after x is put once more and taken once,
-- `remove_if_present` reports that x is absent and leaves the queue as it is, though x waits in it.
pub remove_if_present-misses :
    (x : String) (rest : List String) (s : String → Bool)
    → IsCoherent (record { deque = x ∷ rest; set = s })
    → (q : SnapshotQueue) × (get_nowait (put (record { deque = x ∷ rest; set = s }) x)
        ≡ some (x, q))
      × (elem x q.deque ≡ true)
      × (remove_if_present q x ≡ (false, q))
unfolding put get_nowait remove_if_present
remove_if_present-misses x rest s c = (
  record { deque = rest ++ x ∷ []; set = discard x (add x s) },
  refl,
  ground (arith, elem-append x rest (x ∷ []), eq_refl x),
  ground (arith, eq_refl x),
)
