-- ===== src/Trees/Saved/Repository.antt =====
-- The trees that are saved and loaded (TreeRepository of messaging/trees/queue_manager.py).
use claude_unbound.Prelude.{
  ℕ, String, true, false, ◌≡◌, refl, subst, Option, none, some, [], ◌∷◌, map, ◌==◌, eq_iff, eq_refl,
  truthy, arith, elem, IsDistinct, inl, inr, ==-cases,
}
use claude_unbound.Prelude.Dict.{Dict, get, put as set, has, keys, get-put, has-elem}
use claude_unbound.Trees.Json.{loaded, entries-fields, str}
use claude_unbound.Trees.Tree.{MessageTree}
use claude_unbound.Trees.Tree.Shape.{IsWellFormed}
use claude_unbound.Trees.Repository.{TreeRepository}
use claude_unbound.Trees.Saved.{
  tree_to_dict, add_trees, texts_from, repository_to_dict, repository_from_dict,
}
use claude_unbound.Trees.Saved.Tree.{IsRestored, tree-round_trip}

texts_from-str :
    (isoformat : ℕ → String) (fromisoformat : String → Option ℕ) (d : Dict String)
    → texts_from isoformat fromisoformat (map (λ e. (e.0, str e.1)) d) ≡ loaded d
unfolding texts_from
texts_from-str isoformat fromisoformat [] = refl
texts_from-str isoformat fromisoformat ((k, s) ∷ d) =
    rw (texts_from-str isoformat fromisoformat d) refl

-- Each tree can be saved.
abbrev pub AreWellFormed : Dict MessageTree → Type 0
AreWellFormed d =
    (k : String) (t : MessageTree) → get k d ≡ some t → IsWellFormed t × IsDistinct (keys t.nodes)

module _ (isoformat : ℕ → String) (fromisoformat : String → Option ℕ)
    (inverse : (t : ℕ) → fromisoformat (isoformat t) ≡ some t)
    (written : (t : ℕ) → truthy (isoformat t) ≡ true) (clock : String → ℕ) where
  abbrev IsAdded : Dict MessageTree → Dict MessageTree → Dict MessageTree → Type 0
  IsAdded es ts us =
      ((k : String) (t : MessageTree)
        → get k es ≡ some t
        → (u : MessageTree) × (get k us ≡ some u) × IsRestored clock t u)
      × ((k : String) → has k es ≡ false → get k us ≡ get k ts)

  first_get : (k : String) (t : MessageTree) (es : Dict MessageTree) → get k ((k, t) ∷ es) ≡ some t
  unfolding get
  first_get k t es = rw (eq_refl k) refl

  tail_get :
      (k : String) (t : MessageTree) (es : Dict MessageTree) (j : String) (s : MessageTree)
      → elem k (keys es) ≡ false
      → get j es ≡ some s
      → get j ((k, t) ∷ es) ≡ some s
  unfolding get
  tail_get k t es j s new e = ground (arith, has-elem j es, eq_iff k j)

  step-IsAdded :
      (k : String) (t u : MessageTree) (es ts us : Dict MessageTree)
      → elem k (keys es) ≡ false
      → IsRestored clock t u
      → IsAdded es (set k u ts) us
      → IsAdded ((k, t) ∷ es) ts us
  unfolding get
  step-IsAdded k t u es ts us new restored (found, kept) = (
    (λ j s e. elim (==-cases k j) [
      | inl (same, b) ↦ (
        u,
        ground (arith, kept j, has-elem j es, get-put j k u ts, eq_iff k j),
        subst (λ z. IsRestored clock z u) (is_first j s b e) restored,
      )
      | inr (other, b) ↦ found j s (rw b at e)
    ]),
    (λ j absent. ground (arith, kept j, get-put j k u ts)),
  )
    where
      is_first :
          (j : String) (s : MessageTree) → (k == j) ≡ true → get j ((k, t) ∷ es) ≡ some s → t ≡ s
      is_first j s b e = ground arith

  add_trees-IsAdded :
      (es ts : Dict MessageTree)
      → IsDistinct (keys es)
      → AreWellFormed es
      → (us : Dict MessageTree) × (add_trees isoformat fromisoformat clock
            (map (λ e. (e.0, tree_to_dict isoformat fromisoformat e.1)) es)
            ts
          ≡ loaded us)
        × IsAdded es ts us
  unfolding add_trees get
  add_trees-IsAdded [] ts d w = (ts, refl, ((λ k t e. absurd (missing t e)), λ k e. refl))
    where
      missing : (t : MessageTree) → none ≡ some t → ⊥
      missing t e = cc
  add_trees-IsAdded ((k, t) ∷ es) ts d w =
      let (shape, distinct) = w k t (first_get k t es) in
      let (u, run, restored) =
        tree-round_trip isoformat fromisoformat inverse written clock t shape distinct in
      let (us, run', added) =
        add_trees-IsAdded es (set k u ts) d.1 (λ j s e. w j s (later j s e)) in
      (us, rw run run', step-IsAdded k t u es ts us d.0 restored added)
    where
      later : (j : String) (s : MessageTree) → get j es ≡ some s → get j ((k, t) ∷ es) ≡ some s
      later j s e = tail_get k t es j s d.0 e

  -- A repository of well-formed trees, with distinct keys in its dictionary and in those of its trees,
  -- comes back from `from_dict` of its `to_dict`: with the same root id for every node, with no other
  -- trees, and with each tree restored. `isoformat` gives a text that is not empty, and
  -- `fromisoformat` inverts it.
  pub repository-round_trip :
      (r : TreeRepository)
      → IsDistinct (keys r.trees)
      → AreWellFormed r.trees
      → (r' : TreeRepository) × (repository_from_dict isoformat fromisoformat clock
            (repository_to_dict isoformat fromisoformat r)
          ≡ loaded r')
        × (r'.node_to_tree ≡ r.node_to_tree)
        × ((k : String) (t : MessageTree)
            → get k r.trees ≡ some t
            → (u : MessageTree) × (get k r'.trees ≡ some u) × IsRestored clock t u)
        × ((k : String) → has k r.trees ≡ false → has k r'.trees ≡ false)
  unfolding repository_from_dict repository_to_dict
  repository-round_trip r d w =
      let (us, run, (found, others)) = add_trees-IsAdded r.trees [] d w in
      (
        record { trees = us; node_to_tree = r.node_to_tree },
        simp (entries-fields, run, texts_from-str) refl,
        refl,
        found,
        λ k absent. rw (others k absent) (unfold get in refl),
      )
