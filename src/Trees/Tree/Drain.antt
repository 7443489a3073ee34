-- ===== src/Trees/Tree/Drain.antt =====
-- MessageTree.drain_queue_and_mark_cancelled of messaging/trees/data.py: the loop ends, and what it
-- leaves.
use mathlib.Core.Option
use claude_unbound.Prelude.{
  ℕ, zero, suc, ◌<◌, String, Bool, ◌≡◌, refl, sym, ap, ap₂, ◌∙◌, subst, Option, none, some, List,
  [], ◌∷◌, ◌++◌, arith, map, if◌then◌else◌, Option-cases, inl, inr, elem, length, append_assoc,
  append-nil,
}
use claude_unbound.Prelude.Dict.{Dict, get}
use claude_unbound.Trees.Queue.{SnapshotQueue, discard, get_nowait, qsize}
use claude_unbound.Trees.Node.{MessageNode, set_node_error_sync}
use claude_unbound.Trees.Tree.{
  MessageTree, or_same, update_node, present, drain_loop, drain_queue_and_mark_cancelled,
}
use claude_unbound.Trees.Tree.Nodes.{get-update_node, update_node-none, update_node-some}

module _ (now : ℕ) (msg : String) where
  abbrev mark : MessageNode → MessageNode
  mark = set_node_error_sync now msg

  marked : List String → Dict MessageNode → Dict MessageNode
  marked [] d = d
  marked (x ∷ l) d = marked l (update_node x mark d)

  get-marked :
      (j : String) (l : List String) (d : Dict MessageNode)
      → get j (marked l d) ≡ (if elem j l then Option.map mark (get j d) else get j d)
  unfolding marked
  get-marked j [] d = refl
  get-marked j (x ∷ l) d =
      rw (get-marked j l (update_node x mark d), get-update_node x mark d j)
        (unfold set_node_error_sync in ground arith)

  present-update :
      (x : String) (l : List String) (d : Dict MessageNode)
      → map mark (present (update_node x mark d) l) ≡ map mark (present d l)
  unfolding present set_node_error_sync
  present-update x [] d = refl
  present-update x (c ∷ l) d = ground (arith, present-update x l d, get-update_node x mark d c)

  abbrev waiting : List String → (String → Bool) → MessageTree → MessageTree
  waiting l s t = record t { queue = record { deque = l; set = s } }

  drain-absent :
      (fuel : ℕ) (x : String) (l : List String) (s : String → Bool) (t : MessageTree)
      (acc : List MessageNode)
      → get x t.nodes ≡ none
      → drain_loop (suc fuel) now msg (waiting (x ∷ l) s t) acc
        ≡ drain_loop fuel now msg (waiting l (discard x s) t) acc
  unfolding drain_loop get_nowait
  drain-absent fuel x l s t acc e = rw (e, drain_loop)

  drain-there :
      (fuel : ℕ) (x : String) (l : List String) (s : String → Bool) (t : MessageTree)
      (acc : List MessageNode) (n : MessageNode)
      → get x t.nodes ≡ some n
      → drain_loop (suc fuel) now msg (waiting (x ∷ l) s t) acc
        ≡ drain_loop fuel now msg
            (waiting l (discard x s) (record t { nodes = update_node x mark t.nodes }))
            (acc ++ mark n ∷ [])
  unfolding drain_loop get_nowait
  drain-there fuel x l s t acc n e = rw (update_node-some x mark t.nodes n e) (rw (e, drain_loop))

  present-absent :
      (x : String) (l : List String) (d : Dict MessageNode)
      → get x d ≡ none
      → present d (x ∷ l) ≡ present d l
  unfolding present
  present-absent x l d e = rw (e, present)

  present-there :
      (x : String) (l : List String) (d : Dict MessageNode) (n : MessageNode)
      → get x d ≡ some n
      → present d (x ∷ l) ≡ n ∷ present d l
  unfolding present
  present-there x l d n e = rw (e, present)

  abbrev Drains : ℕ → List String → (String → Bool) → MessageTree → List MessageNode → Type 0
  Drains fuel l s t acc =
      (q : SnapshotQueue) × (q.deque ≡ [])
      × (drain_loop fuel now msg (waiting l s t) acc
          ≡ some (
            record t { queue = q; nodes = marked l t.nodes },
            acc ++ map mark (present t.nodes l),
          ))

  drained :
      (fuel : ℕ) (l : List String) (s : String → Bool) (t : MessageTree) (acc : List MessageNode)
      → length l < fuel
      → Drains fuel l s t acc
  drained zero l s t acc h = elim h [ ]
  drained (suc fuel) [] s t acc h = (
    record { deque = []; set = s },
    refl,
    (unfold drain_loop get_nowait marked present in simp append-nil),
  )
  drained (suc fuel) (x ∷ l) s t acc h = elim (Option-cases (get x t.nodes)) [
    | inl e ↦ absent e (drained fuel l (discard x s) t acc (omega arith))
    | inr (n, e) ↦ there n e (
        drained fuel l (discard x s) (record t { nodes = update_node x mark t.nodes })
          (acc ++ mark n ∷ []) (omega arith))
  ]
    where
      left :
          SnapshotQueue
          → Dict MessageNode
          → List MessageNode
          → Option (MessageTree × List MessageNode)
      left q d ys = some (record t { queue = q; nodes = d }, ys)

      absent :
          get x t.nodes ≡ none
          → Drains fuel l (discard x s) t acc
          → Drains (suc fuel) (x ∷ l) s t acc
      absent e (q, empty, run) = (
        q,
        empty,
        drain-absent fuel x l s t acc e
            ∙ run
            ∙ ap₂ (left q)
                (unfold marked in ap (marked l) (sym (update_node-none x mark t.nodes e)))
                (ap (λ ys. acc ++ map mark ys) (sym (present-absent x l t.nodes e))),
      )

      there :
          (n : MessageNode)
          → get x t.nodes ≡ some n
          → Drains fuel l
              (discard x s)
              (record t { nodes = update_node x mark t.nodes })
              (acc ++ mark n ∷ [])
          → Drains (suc fuel) (x ∷ l) s t acc
      there n e (q, empty, run) = (
        q,
        empty,
        drain-there fuel x l s t acc n e
            ∙ run
            ∙ ap₂ (left q) (unfold marked in refl) (
                append_assoc acc (mark n ∷ []) _
                ∙ ap (λ ys. acc ++ mark n ∷ ys) (present-update x l t.nodes)
                ∙ ap (λ ys. acc ++ map mark ys) (sym (present-there x l t.nodes n e))),
      )

drain-result :
    (now : ℕ) (msg : String) (t : MessageTree)
    → (q : SnapshotQueue) × (q.deque ≡ [])
      × (drain_queue_and_mark_cancelled now msg t ≡ (
        record t { queue = q; nodes = marked now msg t.queue.deque t.nodes },
        map (set_node_error_sync now msg) (present t.nodes t.queue.deque),
      ))
unfolding drain_queue_and_mark_cancelled qsize
drain-result now msg t =
    let (q, empty, run) =
      drained now msg (suc (length t.queue.deque)) t.queue.deque t.queue.set t [] (omega arith) in
    (q, empty, ap (or_same t) run)

-- What a drained tree and the list of its removed nodes are, against the tree before.
abbrev pub IsDrained : ℕ → String → MessageTree → MessageTree × List MessageNode → Type 0
IsDrained now msg t (t', removed) =
    (t'.queue.deque ≡ [])
    × (removed ≡ map (set_node_error_sync now msg) (present t.nodes t.queue.deque))
    × ((j : String)
        → get j t'.nodes ≡ (
            if elem j t.queue.deque
            then Option.map (set_node_error_sync now msg) (get j t.nodes)
            else get j t.nodes))
    × (t' ≡ record t { queue = t'.queue; nodes = t'.nodes })

-- The loop empties the queue; the nodes of the tree that waited in it, and no others, are set to
-- ERROR with the message, and come back in the order of the queue; the rest of the tree stays.
pub drain_queue-IsDrained :
    (now : ℕ) (msg : String) (t : MessageTree)
    → IsDrained now msg t (drain_queue_and_mark_cancelled now msg t)
drain_queue-IsDrained now msg t =
    let (q, empty, run) = drain-result now msg t in
    subst (IsDrained now msg t) (sym run)
      (empty, refl, (λ j. get-marked now msg j t.queue.deque t.nodes), refl)
