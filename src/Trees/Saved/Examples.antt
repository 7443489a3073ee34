-- ===== src/Trees/Saved/Examples.antt =====
-- A repository of one tree that is saved and loaded. A time is written as so many letters, and one
-- more.
use claude_unbound.Prelude.{
  ℕ, zero, suc, String, true, false, ◌≡◌, refl, sym, ap, ◌∙◌, subst, Option, none, some, [], ◌∷◌,
  arith, IsDistinct, truthy, eq_iff,
}
use claude_unbound.Prelude.Dict.{get, has, keys, put as set}
use claude_unbound.Trees.Json.{loaded}
use claude_unbound.Trees.Node.{new_node}
use claude_unbound.Trees.Tree.{MessageTree, new_tree, add_node, update_node}
use claude_unbound.Trees.Tree.Shape.{IsWellFormed}
use claude_unbound.Trees.Repository.{TreeRepository}
use claude_unbound.Trees.Saved.{
  repository_to_dict, repository_from_dict, tree_to_dict, tree_from_dict,
}
use claude_unbound.Trees.Saved.Tree.{IsRestored, tree-round_trip}
use claude_unbound.Trees.Saved.Repository.{AreWellFormed, repository-round_trip}
use claude_unbound.Trees.Examples.{three, three-IsWellFormed}

letters : ℕ → String
letters zero = String.◌∷◌ "t" String.[]
letters (suc n) = String.◌∷◌ "t" (letters n)

length_of : String → ℕ
length_of String.[] = zero
length_of (String.◌∷◌ c s) = suc (length_of s)

less_one : ℕ → Option ℕ
less_one zero = none
less_one (suc n) = some n

of_letters : String → Option ℕ
of_letters s = less_one (length_of s)

length_of-letters : (n : ℕ) → length_of (letters n) ≡ suc n
unfolding length_of letters
length_of-letters zero = refl
length_of-letters (suc n) = ap suc (length_of-letters n)

of_letters-letters : (n : ℕ) → of_letters (letters n) ≡ some n
unfolding of_letters less_one
of_letters-letters n = rw (length_of-letters n) refl

letters_written : (n : ℕ) → truthy (letters n) ≡ true
unfolding length_of
letters_written n = ground (arith, eq_iff (letters n) "", filled)
  where
    filled : letters n ≡ "" → zero ≡ suc n
    filled e = sym (ap length_of e) ∙ length_of-letters n

three_keys : IsDistinct (keys three.nodes)
unfolding add_node new_tree new_node get set update_node
three_keys = (refl, (refl, (refl, tt)))

abbrev shows_9 : String → ℕ
shows_9 k = 9

tree-round_trip_example :
    (u : MessageTree) × (tree_from_dict letters of_letters shows_9
        (tree_to_dict letters of_letters three)
      ≡ loaded u)
    × IsRestored shows_9 three u
tree-round_trip_example =
    tree-round_trip letters of_letters of_letters-letters letters_written shows_9 three
      three-IsWellFormed three_keys

abbrev saved : TreeRepository
saved = record {
  trees = ("r", three) ∷ [];
  node_to_tree = ("r", "r") ∷ ("a", "r") ∷ ("b", "r") ∷ [];
}

saved-AreWellFormed : AreWellFormed saved.trees
unfolding get
saved-AreWellFormed k t e =
    subst (λ u. IsWellFormed u × IsDistinct (keys u.nodes)) (same k t e)
      (three-IsWellFormed, three_keys)
  where
    same : (k : String) (t : MessageTree) → get k saved.trees ≡ some t → three ≡ t
    same k t e = ground arith

repository-round_trip_example :
    (r' : TreeRepository) × (repository_from_dict letters of_letters shows_9
        (repository_to_dict letters of_letters saved)
      ≡ loaded r')
    × (r'.node_to_tree ≡ saved.node_to_tree)
    × ((k : String) (t : MessageTree)
        → get k saved.trees ≡ some t
        → (u : MessageTree) × (get k r'.trees ≡ some u) × IsRestored shows_9 t u)
    × ((k : String) → has k saved.trees ≡ false → has k r'.trees ≡ false)
repository-round_trip_example =
    repository-round_trip letters of_letters of_letters-letters letters_written shows_9 saved
      (refl, tt) saved-AreWellFormed
