-- ===== src/Prelude/Lists.antt =====
-- Lists measured by native numbers, with tests that compute, and predicates by recursion.
use Prim.Native.Nat.{ℕ, suc, ◌+◌}
use Prim.Native.String.{String}
use mathlib.Core.Path.{◌≡◌, refl}
use mathlib.Core.Bool.{Bool, true, false, ◌||◌}
use mathlib.Core.List.{List, [], ◌∷◌, ◌++◌, reverse, reverse-cons}
use native.Mathlib.Omega.{arith}
use text.Mathlib.Text.{◌==◌}
use text.Mathlib.TextEquality.{eq_iff}
use text.Mathlib.TextPositions.{eq_refl}
use claude_unbound.Prelude.Tests.{if◌then◌else◌}

module _ {ℓ} {A : Type ℓ} where
  abbrev pub length : List A → ℕ
  length [] = 0
  length (x ∷ xs) = suc (length xs)

  pub length-append : (xs ys : List A) → length (xs ++ ys) ≡ length xs + length ys
  length-append [] ys = omega arith
  length-append (x ∷ xs) ys = omega (arith, length-append xs ys)

  -- `[x for x in xs if p(x)]`
  abbrev pub keep : (A → Bool) → List A → List A
  keep p [] = []
  keep p (x ∷ xs) = let rest = keep p xs in if p x then x ∷ rest else rest

  abbrev pub All {κ} : (A → Type κ) → List A → Type κ
  All P [] = Unit
  All P (x ∷ xs) = P x × All P xs

  pub All-append {κ} : (P : A → Type κ) (xs ys : List A) → All P xs → All P ys → All P (xs ++ ys)
  All-append P [] ys hx hy = hy
  All-append P (x ∷ xs) ys hx hy = (hx.0, All-append P xs ys hx.1 hy)

  pub All-map {κ μ} :
      (P : A → Type κ) (Q : A → Type μ) (h : (a : A) → P a → Q a) (xs : List A)
      → All P xs
      → All Q xs
  All-map P Q h [] hx = tt
  All-map P Q h (x ∷ xs) hx = (h x hx.0, All-map P Q h xs hx.1)

  pub keep-append : (p : A → Bool) (xs ys : List A) → keep p (xs ++ ys) ≡ keep p xs ++ keep p ys
  keep-append p [] ys = refl
  keep-append p (x ∷ xs) ys = ground (arith, keep-append p xs ys)

-- `x in xs` on a list of texts.
abbrev pub elem : String → List String → Bool
elem k [] = false
elem k (x ∷ xs) = (x == k) || elem k xs

pub elem-append : (k : String) (xs ys : List String) → elem k (xs ++ ys) ≡ (elem k xs || elem k ys)
elem-append k [] ys = refl
elem-append k (x ∷ xs) ys = ground (arith, elem-append k xs ys)

-- No text stands twice.
abbrev pub IsDistinct : List String → Type 0
IsDistinct [] = Unit {0}
IsDistinct (x ∷ xs) = (elem x xs ≡ false) × IsDistinct xs

pub elem_head : (k : String) (xs : List String) → elem k (k ∷ xs) ≡ true
elem_head k xs = ground (arith, eq_refl k)

abbrev pub without : String → List String → List String
without k = keep (λ x. if x == k then false else true)

pub elem-without :
    (j k : String) (xs : List String)
    → elem j (without k xs) ≡ (if k == j then false else elem j xs)
elem-without j k [] = ground arith
elem-without j k (x ∷ xs) = ground (arith, elem-without j k xs, eq_iff x k, eq_iff x j, eq_iff k j)

pub IsDistinct-without : (k : String) (xs : List String) → IsDistinct xs → IsDistinct (without k xs)
IsDistinct-without k [] h = tt
IsDistinct-without k (x ∷ xs) h =
    ground (arith, IsDistinct-without k xs h.1, elem-without x k xs, eq_iff x k)

pub without-absent : (k : String) (xs : List String) → elem k xs ≡ false → without k xs ≡ xs
without-absent k [] h = refl
without-absent k (x ∷ xs) h = ground (arith, without-absent k xs)

pub IsDistinct-snoc :
    (k : String) (xs : List String) → IsDistinct xs → elem k xs ≡ false → IsDistinct (xs ++ k ∷ [])
IsDistinct-snoc k [] d h = (refl, tt)
IsDistinct-snoc k (x ∷ xs) d h =
    ground (arith, IsDistinct-snoc k xs d.1, elem-append x xs (k ∷ []), eq_iff x k, eq_iff k x)

pub elem-reverse : (k : String) (xs : List String) → elem k (reverse xs) ≡ elem k xs
elem-reverse k [] = refl
elem-reverse k (x ∷ xs) =
    rw (reverse-cons x xs, elem-append k (reverse xs) (x ∷ []), elem-reverse k xs) (ground arith)

abbrev pub flat_map {ℓ κ} : {A : Type ℓ} {B : Type κ} → (A → List B) → List A → List B
flat_map f [] = []
flat_map f (x ∷ xs) = f x ++ flat_map f xs
