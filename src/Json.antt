-- ===== src/Json.antt =====
-- Values that Python decodes from JSON or msgpack: what `isinstance` and `dict.get` tell of them.
use agora_test.Prelude.{
  ℕ, suc, List, [], ◌∷◌, ◌≡◌, refl, inl, inr, Bool-cases, Bool, Option, none, some, ℤ, pos, Text,
  text_eq, if◌then◌else◌,
}

-- Of a float only whether it is 0 is looked at; a dict is the list of its items, each key once.
mutual
  pub data Json : Type 0 where
    null : Json
    bool : Bool → Json
    int : ℤ → Json
    float : Bool → Json
    str : Text → Json
    arr : Items → Json
    obj : Fields → Json

  pub data Items : Type 0 where
    nil : Items
    cons : Json → Items → Items

  pub data Fields : Type 0 where
    end : Fields
    field : Text → Json → Fields → Fields

-- the value at the key, if it is there
unfoldable pub find : Text → Fields → Option Json
find key end = none
find key (field k v d) = if text_eq k key then some v else find key d

-- `d.get(key)`: `None` where the key is missing
unfoldable pub get : Text → Fields → Json
get key end = null
get key (field k v d) = if text_eq k key then v else get key d

-- `{k: v for k, v in d.items() if k != key}`
unfoldable pub without : Text → Fields → Fields
without key end = end
without key (field k v d) =
    let rest = without key d in if text_eq k key then rest else field k v rest

-- `isinstance(value, int) and not isinstance(value, bool)`
abbrev pub as_int : Json → Option ℤ
as_int (int z) = some z
as_int _ = none

-- the same, and `value >= 0`
abbrev pub as_nat : Json → Option ℕ
as_nat (int (pos n)) = some n
as_nat _ = none

-- `isinstance(value, str)`
abbrev pub as_str : Json → Option Text
as_str (str s) = some s
as_str _ = none

-- the same, and `value > 0`
abbrev pub as_positive : Json → Option ℕ
as_positive (int (pos (suc n))) = some (suc n)
as_positive _ = none

-- `d[key] = value` for each of the keys, where there is a value
unfoldable pub dict_of : List (Text × Option Json) → Fields
dict_of [] = end
dict_of ((key, none) ∷ rest) = dict_of rest
dict_of ((key, some v) ∷ rest) = field key v (dict_of rest)

abbrev pub or_else : Option Json → Option Json → Option Json
or_else none o = o
or_else (some v) o = some v

-- The value that some keys and values have for a key.
abbrev pub value_at : Text → List (Text × Option Json) → Option Json
value_at key [] = none
value_at key ((k, v) ∷ rest) =
    if text_eq k key then or_else v (value_at key rest) else value_at key rest

pub find-dict_of :
    (key : Text) (d : List (Text × Option Json)) → find key (dict_of d) ≡ value_at key d
unfolding find dict_of
find-dict_of key [] = refl
find-dict_of key ((k, none) ∷ d) = elim (Bool-cases (text_eq k key)) [
  | inl here ↦ rw here (find-dict_of key d)
  | inr there ↦ rw there (find-dict_of key d)
]
find-dict_of key ((k, some v) ∷ d) = elim (Bool-cases (text_eq k key)) [
  | inl here ↦ rw here refl
  | inr there ↦ rw there (find-dict_of key d)
]

pub or_else-none : (o : Option Json) → or_else o none ≡ o
or_else-none none = refl
or_else-none (some v) = refl
