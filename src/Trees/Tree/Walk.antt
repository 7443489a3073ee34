-- ===== src/Trees/Tree/Walk.antt =====
-- The depth-first walk of MessageTree.get_descendants (messaging/trees/data.py): it ends where the
-- children have smaller heights, and what it lists.
use native.Mathlib.Nat.{add_assoc, zero-add}
use claude_unbound.Prelude.{
  ℕ, zero, suc, ◌+◌, ◌-◌, ◌≤◌, ◌<◌, String, true, ◌≡◌, ◌↔◌, ◌⊎◌, inl, inr, refl, sym, ap, ap₂, ◌∙◌,
  subst, elem_head, ==-cases, Option, none, some, List, [], ◌∷◌, ◌++◌, reverse, arith, eq_iff,
  eq_refl, length, length-append, elem, elem-append, elem-reverse, flat_map, append_assoc,
  append-nil, Bool-cases,
}
use claude_unbound.Prelude.Dict.{Dict, get, has}
use claude_unbound.Trees.Node.{MessageNode}
use claude_unbound.Trees.Tree.{MessageTree, walk, pushed, get_descendants}

abbrev pub children_of_entry : Option MessageNode → List String
children_of_entry none = []
children_of_entry (some n) = n.children_ids

abbrev pub children_of : Dict MessageNode → String → List String
children_of d x = children_of_entry (get x d)

-- The children have smaller heights, so no node is below itself.
abbrev pub HasHeight : (String → ℕ) → Dict MessageNode → Type 0
HasHeight h d = (x c : String) → elem c (children_of d x) ≡ true → h c < h x

-- A node before the subtrees of its children, the last child first, down to depth `k`.
pub subtree : ℕ → Dict MessageNode → String → List String
subtree zero d x = x ∷ []
subtree (suc k) d x = x ∷ flat_map (subtree k d) (reverse (children_of d x))

suc-add : (n f : ℕ) → suc n + f ≡ suc (n + f)
suc-add n f = omega arith

module _ (d : Dict MessageNode) where
  pushed-children :
      (x : String) (stack : List String) → pushed d x stack ≡ reverse (children_of d x) ++ stack
  unfolding pushed
  pushed-children x stack = ground arith

  abbrev Walks : List String → List String → Type 0
  Walks xs out =
      (f : ℕ) (stack acc : List String)
      → walk (length out + f) d (xs ++ stack) acc ≡ walk f d stack (acc ++ out)

  walk-step :
      (f : ℕ) (x : String) (stack acc : List String)
      → walk (suc f) d (x ∷ stack) acc
        ≡ walk f d (reverse (children_of d x) ++ stack) (acc ++ x ∷ [])
  unfolding walk
  walk-step f x stack acc = ap (λ s. walk f d s (acc ++ x ∷ [])) (pushed-children x stack)

  Walks-nil : Walks [] []
  Walks-nil f stack acc = ap₂ (λ n a. walk n d stack a) (zero-add f) (sym (append-nil acc))

  Walks-cons :
      (x : String) (xs out : List String)
      → Walks (reverse (children_of d x) ++ xs) out
      → Walks (x ∷ xs) (x ∷ out)
  Walks-cons x xs out w f stack acc =
      ap (λ n. walk n d (x ∷ (xs ++ stack)) acc) (suc-add (length out) f)
      ∙ walk-step (length out + f) x (xs ++ stack) acc
      ∙ ap (λ s. walk (length out + f) d s (acc ++ x ∷ []))
          (sym (append_assoc (reverse (children_of d x)) xs stack))
      ∙ w f stack (acc ++ x ∷ [])
      ∙ ap (walk f d stack) (append_assoc acc (x ∷ []) out)

  Walks-append :
      (xs ys out more : List String) → Walks xs out → Walks ys more → Walks (xs ++ ys) (out ++ more)
  Walks-append xs ys out more w v f stack acc =
      ap (λ n. walk n d (xs ++ ys ++ stack) acc)
        (ap (λ n. n + f) (length-append out more) ∙ add_assoc (length out) (length more) f)
      ∙ ap (λ s. walk (length out + (length more + f)) d s acc) (append_assoc xs ys stack)
      ∙ w (length more + f) (ys ++ stack) acc
      ∙ v f stack (acc ++ out)
      ∙ ap (walk f d stack) (append_assoc acc out more)

  module _ (h : String → ℕ) (falls : HasHeight h d) where
    -- A list of nodes at heights up to `k`.
    abbrev AtMost : ℕ → List String → Type 0
    AtMost k xs = (c : String) → elem c xs ≡ true → h c ≤ k

    no_children : (x : String) → h x ≤ 0 → (l : List String) → l ≡ children_of d x → l ≡ []
    no_children x low [] e = refl
    no_children x low (c ∷ l) e =
        absurd (omega (arith, falls x c (subst (λ m. elem c m ≡ true) e (elem_head c l))))

    children-AtMost : (k : ℕ) (x : String) → h x ≤ suc k → AtMost k (reverse (children_of d x))
    children-AtMost k x low c m =
        omega (arith, falls x c (sym (elem-reverse c (children_of d x)) ∙ m))

    Walks-flat :
        (g : String → List String) (k : ℕ) (xs : List String)
        → ((c : String) → h c ≤ k → Walks (c ∷ []) (g c))
        → AtMost k xs
        → Walks xs (flat_map g xs)
    Walks-flat g k [] each low = Walks-nil
    Walks-flat g k (x ∷ xs) each low =
        Walks-append (x ∷ []) xs (g x) (flat_map g xs) (each x (low x (elem_head x xs)))
          (Walks-flat g k xs each (λ c m. low c (ground arith)))

    Walks-subtree : (k : ℕ) (x : String) → h x ≤ k → Walks (x ∷ []) (subtree k d x)
    unfolding subtree
    Walks-subtree zero x low = Walks-cons x [] [] (
        subst (λ l. Walks (reverse l ++ []) []) (sym (no_children x low (children_of d x) refl))
          Walks-nil)
    Walks-subtree (suc k) x low = Walks-cons x [] _ (
        subst (λ l. Walks l (flat_map (subtree k d) (reverse (children_of d x))))
          (sym (append-nil (reverse (children_of d x))))
          (Walks-flat (subtree k d) k (reverse (children_of d x)) (Walks-subtree k)
            (children-AtMost k x low)))

-- In a tree whose nodes have falling heights the walk ends, with every fuel above the size of the
-- subtree, and lists the node before the subtrees of its children, the last child first.
pub get_descendants-eq-subtree :
    (t : MessageTree) (h : String → ℕ) (k fuel : ℕ) (x : String)
    → HasHeight h t.nodes
    → has x t.nodes ≡ true
    → h x ≤ k
    → length (subtree k t.nodes x) < fuel
    → get_descendants fuel t x ≡ some (subtree k t.nodes x)
unfolding get_descendants
get_descendants-eq-subtree t h k fuel x falls there low enough = rw there (
    ap (λ n. walk n t.nodes (x ∷ []) []) (split (length (subtree k t.nodes x)) fuel enough)
    ∙ Walks-subtree t.nodes h falls k x low (suc (fuel - length (subtree k t.nodes x) - 1)) [] []
    ∙ unfold walk in refl)
  where
    split : (n f : ℕ) → n < f → f ≡ n + suc (f - n - 1)
    split n f l = omega arith

-- The nodes below `x`: the node itself, and every child of a node below it.
pub data IsBelow (d : Dict MessageNode) (x : String) : String → Type 0 where
  here : IsBelow d x x
  child : {y z : String} → IsBelow d x y → elem z (children_of d y) ≡ true → IsBelow d x z

pub IsBelow-cases :
    {d : Dict MessageNode} {x y : String}
    → IsBelow d x y
    → (x ≡ y) ⊎ ((p : String) × IsBelow d x p × (elem y (children_of d p) ≡ true))
IsBelow-cases here = inl refl
IsBelow-cases (child {y = p} b m) = inr (p, b, m)

module _ (d : Dict MessageNode) where
  IsBelow-child : {x c y : String} → elem c (children_of d x) ≡ true → IsBelow d c y → IsBelow d x y
  IsBelow-child e here = child here e
  IsBelow-child e (child b m) = child (IsBelow-child e b) m

  elem-flat_map :
      (g : String → List String) (y : String) (xs : List String)
      → elem y (flat_map g xs) ≡ true
      → (c : String) × (elem c xs ≡ true) × (elem y (g c) ≡ true)
  elem-flat_map g y [] m = cc
  elem-flat_map g y (x ∷ xs) m = elim (Bool-cases (elem y (g x))) [
    | inl e ↦ (x, elem_head x xs, e)
    | inr e ↦
        let (c, there, below) =
          elem-flat_map g y xs (ground (arith, elem-append y (g x) (flat_map g xs))) in
        (c, ground arith, below)
  ]

  elem-flat_map_of :
      (g : String → List String) (c y : String) (xs : List String)
      → elem c xs ≡ true
      → elem y (g c) ≡ true
      → elem y (flat_map g xs) ≡ true
  elem-flat_map_of g c y [] m n = cc
  elem-flat_map_of g c y (x ∷ xs) m n = elim (==-cases x c) [
    | inl (e, _) ↦ ground (arith, elem-append y (g x) (flat_map g xs), ap (λ z. elem y (g z)) e)
    | inr (_, e) ↦ ground (arith, elem-append y (g x) (flat_map g xs), elem-flat_map_of g c y xs)
  ]

  subtree_head : (k : ℕ) (x : String) → elem x (subtree k d x) ≡ true
  unfolding subtree
  subtree_head zero x = ground (arith, eq_refl x)
  subtree_head (suc k) x = ground (arith, eq_refl x)

  -- What the walk lists is below the node.
  IsBelow-of_elem : (k : ℕ) (x y : String) → elem y (subtree k d x) ≡ true → IsBelow d x y
  unfolding subtree
  IsBelow-of_elem zero x y m = subst (IsBelow d x) ((eq_iff x y).0 (ground arith)) here
  IsBelow-of_elem (suc k) x y m = elim (==-cases x y) [
    | inl (e, _) ↦ subst (IsBelow d x) e here
    | inr (_, e) ↦
        let (c, there, below) =
          elem-flat_map (subtree k d) y (reverse (children_of d x)) (ground arith) in
        IsBelow-child (sym (elem-reverse c (children_of d x)) ∙ there) (IsBelow-of_elem k c y below)
  ]

  module _ (h : String → ℕ) (falls : HasHeight h d) where
    -- A child of a listed node is listed.
    subtree-closed :
        (k : ℕ) (x y z : String)
        → h x ≤ k
        → elem y (subtree k d x) ≡ true
        → elem z (children_of d y) ≡ true
        → elem z (subtree k d x) ≡ true
    unfolding subtree
    subtree-closed zero x y z low m n =
        let e : x ≡ y = (eq_iff x y).0 (ground arith) in absurd (omega (arith, falls y z n, ap h e))
    subtree-closed (suc k) x y z low m n = elim (==-cases x y) [
      | inl (e, _) ↦
          let n' : elem z (children_of d x) ≡ true =
            subst (λ w. elem z (children_of d w) ≡ true) (sym e) n in
          let deep : elem z (flat_map (subtree k d) (reverse (children_of d x))) ≡ true =
            elem-flat_map_of (subtree k d) z z (reverse (children_of d x))
              (elem-reverse z (children_of d x) ∙ n') (subtree_head k z) in
          ground (arith, deep)
      | inr (_, e) ↦
          let (c, there, below) =
            elem-flat_map (subtree k d) y (reverse (children_of d x)) (ground arith) in
          let deeper : elem z (subtree k d c) ≡ true =
            subtree-closed k c y z
              (omega (arith, falls x c (sym (elem-reverse c (children_of d x)) ∙ there))) below n in
          let deep : elem z (flat_map (subtree k d) (reverse (children_of d x))) ≡ true =
            elem-flat_map_of (subtree k d) c z (reverse (children_of d x)) there deeper in
          ground (arith, deep)
    ]

    elem_of_IsBelow :
        (k : ℕ) {x y : String} → h x ≤ k → IsBelow d x y → elem y (subtree k d x) ≡ true
    elem_of_IsBelow k {x} low here = subtree_head k x
    elem_of_IsBelow k {x} {y} low (child {y = p} b m) =
        subtree-closed k x p y low (elem_of_IsBelow k low b) m

-- In a tree whose nodes have falling heights, `get_descendants` ends, with every fuel from some
-- number on, with one list, and that list holds exactly the nodes below the given one, itself
-- included.
pub get_descendants-IsBelow :
    (t : MessageTree) (h : String → ℕ) (x : String)
    → HasHeight h t.nodes
    → has x t.nodes ≡ true
    → (enough : ℕ) × (ids : List String) × ((fuel : ℕ)
        → enough ≤ fuel
        → get_descendants fuel t x ≡ some ids)
      × ((y : String) → (elem y ids ≡ true) ↔ IsBelow t.nodes x y)
get_descendants-IsBelow t h x falls there = (
  suc (length (subtree (h x) t.nodes x)),
  subtree (h x) t.nodes x,
  (λ fuel enough. get_descendants-eq-subtree t h (h x) fuel x falls there (omega arith) enough),
  (λ y. (IsBelow-of_elem t.nodes (h x) x y, elem_of_IsBelow t.nodes h falls (h x) (omega arith))),
)
