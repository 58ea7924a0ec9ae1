-- ===== src/Gateway/Negotiate.antt =====
-- `negotiate_capabilities` of src/gateway.py. The order of the features, which comes from a set,
-- is modelled as the client's; a component of a version is a natural number.
pub mod Laws
use mx2_sandbox.Base.{
  ℕ, min, Str, str, Bool, true, false, Option, none, some, List, [], ◌∷◌, ◌++◌, take, contains,
  nat_eq, list_eq, if◌then◌else◌,
}
use mx2_sandbox.Base.Text.{split}
use mx2_sandbox.Base.Decimal.{decimal, int_of}

abbrev pub default_server_features : List Str
default_server_features =
    str "HPKE" ∷ str "Sealed-Sender" ∷ str "Trust-Routing" ∷ str "Delivery-Receipts" ∷ []

abbrev pub both : Option ℕ → Option ℕ → Option (ℕ × ℕ)
both (some a) (some b) = some (a, b)
both _ _ = none

-- two variables take the values of exactly two items
abbrev pub two_numbers : List Str → Option (ℕ × ℕ)
two_numbers (a ∷ b ∷ []) = both (int_of a) (int_of b)
two_numbers _ = none

-- `map(int, version.split(".")[:2])`
unfoldable pub version_parts : Str → Option (ℕ × ℕ)
version_parts version = two_numbers (take 2 (split b'.' version))

-- `f"{negotiated_major}.{negotiated_minor}.0"`
unfoldable pub version_text : ℕ → ℕ → Str
version_text major minor = decimal major ++ (str "." ++ (decimal minor ++ str ".0"))

-- `list(set(xs) & set(ys))`
unfoldable pub intersection : List Str → List Str → List Str
intersection [] ys = []
intersection (x ∷ xs) ys =
    let rest = intersection xs ys in
    if contains ys x then (if contains rest x then rest else x ∷ rest) else rest

pub record Negotiated : Type 0 where
  pub protocol_version : Str
  pub features : List Str

abbrev pub negotiated : Option (ℕ × ℕ) → Option (ℕ × ℕ) → List Str → Option Negotiated
negotiated (some (c_major, c_minor)) (some (s_major, s_minor)) features = some (record {
  protocol_version = version_text (min c_major s_major) (min c_minor s_minor);
  features = features;
})
negotiated _ _ features = none

-- `server_features` with its default
abbrev pub or_default : Option (List Str) → List Str
or_default none = default_server_features
or_default (some features) = features

-- `none` stands for the `ValueError` of a version that is not understood.
unfoldable pub negotiate_capabilities : Str → List Str → Str → Option (List Str) → Option Negotiated
negotiate_capabilities client_version client_features server_version server_features =
    negotiated (version_parts client_version) (version_parts server_version)
      (intersection client_features (or_default server_features))
