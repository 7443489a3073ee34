-- ===== src/Prelude/Texts.antt =====
-- Texts as lists of code points, with the methods of Python's `str` that the program calls.
use Prim.Native.Char.{code}
use Prim.Native.Nat.{ℕ, zero, suc}
use Prim.Native.String.{String}
use mathlib.Core.Bool.{Bool, true, false, ◌&&◌, ◌||◌}
use mathlib.Core.Option.{Option, none, some}
use mathlib.Core.List.{List, [], ◌∷◌, ◌++◌}
use mathlib.Core.Path.{◌≡◌, refl}
use native.Mathlib.Omega.{arith}
use claude_unbound.Prelude.Tests.{eqb, if◌then◌else◌}

abbrev pub Text : Type 0
Text = List ℕ

abbrev pub codes : String → Text
codes String.[] = []
codes (String.◌∷◌ c s) = code c ∷ codes s

-- `str.startswith`, `str.find` (with `none` for -1), `str.rfind` of one character, and the slices.
unfoldable pub starts_with : Text → Text → Bool
starts_with [] s = true
starts_with (c ∷ t) [] = false
starts_with (c ∷ t) (d ∷ s) = eqb c d && starts_with t s

abbrev pub plus_one : Option ℕ → Option ℕ
plus_one none = none
plus_one (some i) = some (suc i)

unfoldable pub find : Text → Text → Option ℕ
find t [] = if starts_with t [] then some 0 else none
find t (d ∷ s) = let rest = find t s in if starts_with t (d ∷ s) then some 0 else plus_one rest

abbrev pub or_here : Bool → Option ℕ → Option ℕ
or_here b none = if b then some 0 else none
or_here b (some i) = some (suc i)

unfoldable pub rfind : ℕ → Text → Option ℕ
rfind c [] = none
rfind c (d ∷ s) = or_here (eqb d c) (rfind c s)

abbrev pub take : ℕ → Text → Text
take zero s = []
take (suc n) [] = []
take (suc n) (c ∷ s) = c ∷ take n s

abbrev pub drop : ℕ → Text → Text
drop zero s = s
drop (suc n) [] = []
drop (suc n) (c ∷ s) = drop n s

-- Equality of texts, by their code points.
unfoldable pub same_text : Text → Text → Bool
same_text [] [] = true
same_text [] (d ∷ t) = false
same_text (c ∷ s) [] = false
same_text (c ∷ s) (d ∷ t) = eqb c d && same_text s t

pub same_text-eq : (t c : Text) → same_text t c ≡ true → t ≡ c
unfolding same_text
same_text-eq [] [] h = refl
same_text-eq [] (d ∷ c) h = cc
same_text-eq (x ∷ t) [] h = cc
same_text-eq (x ∷ t) (d ∷ c) h = ground (arith, same_text-eq t c)

pub same_text_self : (t : Text) → same_text t t ≡ true
unfolding same_text
same_text_self [] = refl
same_text_self (c ∷ t) = ground (arith, same_text_self t)

-- `t in ts`
unfoldable pub among : Text → List Text → Bool
among t [] = false
among t (u ∷ us) = same_text u t || among t us

-- `str.partition` of one character: the text before it, whether it is there, and the text after it.
unfoldable pub partition : ℕ → Text → Text × Bool × Text
partition c [] = ([], false, [])
partition c (d ∷ s) =
    let (before, there, rest) = partition c s in
    if eqb d c then ([], true, s) else (d ∷ before, there, rest)

-- The character is not in the text.
abbrev pub Lacks : ℕ → Text → Type 0
Lacks c [] = Unit {0}
Lacks c (d ∷ s) = (eqb d c ≡ false) × Lacks c s

pub partition-append :
    (c : ℕ) (s rest : Text) → Lacks c s → partition c (s ++ c ∷ rest) ≡ (s, true, rest)
unfolding partition
partition-append c [] rest l = ground arith
partition-append c (d ∷ s) rest (other, l) = rw other (rw (partition-append c s rest l) refl)

abbrev pub lacks : ℕ → Text → Bool
lacks c [] = true
lacks c (d ∷ s) = if eqb d c then false else lacks c s

pub lacks-Lacks : (c : ℕ) (s : Text) → lacks c s ≡ true → Lacks c s
lacks-Lacks c [] h = tt
lacks-Lacks c (d ∷ s) h = ground (arith, lacks-Lacks c s)

pub same_text_comm : (s t : Text) → same_text s t ≡ same_text t s
unfolding same_text
same_text_comm [] [] = refl
same_text_comm [] (d ∷ t) = refl
same_text_comm (c ∷ s) [] = refl
same_text_comm (c ∷ s) (d ∷ t) = ground (arith, same_text_comm s t)

pub among-append : (t : Text) (us vs : List Text) → among t (us ++ vs) ≡ (among t us || among t vs)
unfolding among
among-append t [] vs = refl
among-append t (u ∷ us) vs = ground (arith, among-append t us vs)

-- No text stands twice in the list.
abbrev pub AreDistinct : List Text → Type 0
AreDistinct [] = Unit {0}
AreDistinct (t ∷ ts) = (among t ts ≡ false) × AreDistinct ts

pub AreDistinct-append :
    (ts : List Text) (t : Text) → among t ts ≡ false → AreDistinct ts → AreDistinct (ts ++ t ∷ [])
unfolding among
AreDistinct-append [] t h d = (refl, tt)
AreDistinct-append (u ∷ us) t h (fresh, d) = (
  ground (arith, among-append u us (t ∷ []), same_text_comm u t),
  AreDistinct-append us t (ground arith) d,
)
