-- ===== src/Trees/Json.antt =====
-- JSON values as Python holds them: what `to_dict` makes and `from_dict` reads (messaging/trees).
use claude_unbound.Prelude.{
  String, ◌≡◌, refl, ap, Option, none, some, List, [], ◌∷◌, ◌==◌, if◌then◌else◌,
}
use claude_unbound.Trees.Tree.{Error, key_error}

mutual
  pub data Json : Type 0 where
    null : Json
    str : String → Json
    arr : Items → Json
    obj : Fields → Json

  pub data Items : Type 0 where
    nil : Items
    cons : Json → Items → Items

  pub data Fields : Type 0 where
    end : Fields
    field : String → Json → Fields → Fields

abbrev pub fields : List (String × Json) → Fields
fields [] = end
fields ((k, v) ∷ l) = field k v (fields l)

abbrev pub entries : Fields → List (String × Json)
entries end = []
entries (field k v f) = (k, v) ∷ entries f

pub entries-fields : (l : List (String × Json)) → entries (fields l) ≡ l
entries-fields [] = refl
entries-fields (e ∷ l) = ap (λ z. e ∷ z) (entries-fields l)

abbrev pub lookup : String → Fields → Option Json
lookup k end = none
lookup k (field j v f) = if j == k then some v else lookup k f

-- What a load gives: a value, or an exception. `untyped` stands for a value of another type than
-- `to_dict` writes in its place; the code takes such a value as it is, or fails on it later.
pub data Loaded {ℓ} (A : Type ℓ) : Type ℓ where
  loaded : A → Loaded A
  raised : Error → Loaded A
  untyped : Loaded A

infixl 5 ◌>>=◌
abbrev pub ◌>>=◌ {ℓ κ} : {A : Type ℓ} {B : Type κ} → Loaded A → (A → Loaded B) → Loaded B
loaded a >>= f = f a
raised e >>= f = raised e
untyped >>= f = untyped

abbrev pub value_or {ℓ} : {A : Type ℓ} → Error → Option A → Loaded A
value_or e none = raised e
value_or e (some a) = loaded a

-- `data[key]`.
abbrev pub item : String → Json → Loaded Json
item k (obj f) = value_or key_error (lookup k f)
item k _ = untyped

-- `data.get(key)`: `None` if it is missing.
abbrev pub or_null : Option Json → Json
or_null none = null
or_null (some v) = v

abbrev pub item? : String → Json → Loaded Json
item? k (obj f) = loaded (or_null (lookup k f))
item? k _ = untyped

abbrev pub as_text : Json → Loaded String
as_text (str s) = loaded s
as_text _ = untyped

abbrev pub as_text? : Json → Loaded (Option String)
as_text? null = loaded none
as_text? (str s) = loaded (some s)
as_text? _ = untyped

abbrev pub as_texts : Items → Loaded (List String)
as_texts nil = loaded []
as_texts (cons v vs) = as_text v >>= λ s. as_texts vs >>= λ ss. loaded (s ∷ ss)

-- `data.get(key, default)`.
abbrev pub item_or : String → Json → Json → Loaded Json
item_or k default (obj f) = loaded (elim (lookup k f) [ none ↦ default | some v ↦ v ])
item_or k default _ = untyped

abbrev pub as_list : Json → Loaded (List String)
as_list (arr vs) = as_texts vs
as_list _ = untyped

abbrev pub as_object : Json → Loaded (List (String × Json))
as_object (obj f) = loaded (entries f)
as_object _ = untyped

abbrev pub text? : Option String → Json
text? none = null
text? (some s) = str s

abbrev pub texts : List String → Items
texts [] = nil
texts (s ∷ ss) = cons (str s) (texts ss)

pub as_text?-text? : (o : Option String) → as_text? (text? o) ≡ loaded o
as_text?-text? none = refl
as_text?-text? (some s) = refl

pub as_texts-texts : (l : List String) → as_texts (texts l) ≡ loaded l
as_texts-texts [] = refl
as_texts-texts (s ∷ l) = rw (as_texts-texts l) refl
