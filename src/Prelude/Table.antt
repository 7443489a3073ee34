-- ===== src/Prelude/Table.antt =====
-- Python's `dict` with number keys, in insertion order, and the integers that a stream index takes.
use Prim.Native.Nat.{ℕ}
use mathlib.Core.Path.{◌≡◌, refl}
use mathlib.Core.Bool.{Bool, false}
use mathlib.Core.Option.{Option, none, some}
use mathlib.Core.List.{List, [], ◌∷◌}
use native.Mathlib.Omega.{arith}
use claude_unbound.Prelude.Tests.{eqb, if◌then◌else◌, is_some}

-- `negsuc n` is -(n + 1).
pub data ℤ : Type 0 where
  pos : ℕ → ℤ
  negsuc : ℕ → ℤ

-- The integer is this number.
abbrev pub is_pos : ℤ → ℕ → Bool
is_pos (pos k) i = eqb k i
is_pos (negsuc k) i = false

abbrev pub Table {ℓ} : Type ℓ → Type ℓ
Table V = List (ℕ × V)

module _ {ℓ} {V : Type ℓ} where
  unfoldable pub get : ℕ → Table V → Option V
  get k [] = none
  get k ((j, v) ∷ d) = if eqb j k then some v else get k d

  unfoldable pub put : ℕ → V → Table V → Table V
  put k v [] = (k, v) ∷ []
  put k v ((j, w) ∷ d) = if eqb j k then (j, v) ∷ d else (j, w) ∷ put k v d

  abbrev pub has : ℕ → Table V → Bool
  has k d = is_some (get k d)

  pub get-put :
      (j k : ℕ) (v : V) (d : Table V) → get j (put k v d) ≡ (if eqb k j then some v else get j d)
  unfolding get put
  get-put j k v [] = refl
  get-put j k v ((i, w) ∷ d) = ground (arith, get-put j k v d)
