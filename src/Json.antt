-- ===== src/Json.antt =====
-- The values that `json.loads` returns, as the program handles them: dicts with their keys in
-- insertion order, and the attribute and truth tests of Python. Numbers are natural numbers.
use mx2_sandbox.Base.{
  ℕ, zero, Str, Bool, true, false, Option, none, some, List, [], ◌∷◌, ◌==◌, nat_eq, list_eq,
  if◌then◌else◌,
}

mutual
  pub data Json : Type 0 where
    null : Json
    bool : Bool → Json
    num : ℕ → Json
    text : Str → Json
    arr : Items → Json
    obj : Fields → Json

  pub data Items : Type 0 where
    nil : Items
    cons : Json → Items → Items

  pub data Fields : Type 0 where
    end : Fields
    field : Str → Json → Fields → Fields

-- `bool(v)`
unfoldable pub truthy : Json → Bool
truthy null = false
truthy (bool b) = b
truthy (num zero) = false
truthy (text []) = false
truthy (arr nil) = false
truthy (obj end) = false
truthy _ = true

-- `d.get(key)` of a dict
unfoldable pub get_field : Str → Fields → Option Json
unfolding list_eq nat_eq
get_field key end = none
get_field key (field k v fs) = if key == k then some v else get_field key fs

-- `d.get(key, default)`
unfoldable pub get_or : Fields → Str → Json → Json
unfolding get_field
get_or d key default = elim (get_field key d) [ none ↦ default | some v ↦ v ]

-- The dict of a list of items, and the list of a list.
abbrev pub fields : List (Str × Json) → Fields
fields [] = end
fields ((k, v) ∷ fs) = field k v (fields fs)

abbrev pub items : List Json → Items
items [] = nil
items (v ∷ vs) = cons v (items vs)

abbrev pub dict : List (Str × Json) → Json
dict fs = obj (fields fs)
