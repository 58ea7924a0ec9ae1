-- ===== src/Gateway/Header.antt =====
-- The two searches of `translate_smtp_to_mx2` for a DID in a header line:
-- `re.search(r"(?i)^NAME:\s*(did:mx2:[a-zA-Z0-9+/=]+)", raw, re.MULTILINE)`, group 1.
use mx2_sandbox.Base.{
  ℕ, Str, str, Bool, true, ◌&&◌, ◌||◌, Option, none, some, [], ◌∷◌, ◌++◌, leb, ◌==◌, nat_eq,
  if◌then◌else◌,
}
use mx2_sandbox.Base.Text.{lower_code, lstrip, is_space, starts_with}

-- the rest of `s` behind a pattern in lower case, whatever the case of `s`
unfoldable pub after_pattern : Str → Str → Option Str
unfolding nat_eq lower_code
after_pattern [] s = some s
after_pattern (p ∷ pattern) [] = none
after_pattern (p ∷ pattern) (c ∷ s) =
    let rest = after_pattern pattern s in if lower_code c == p then rest else none

-- a character of `[a-zA-Z0-9+/=]`
unfoldable pub is_key_char : ℕ → Bool
unfolding nat_eq
is_key_char c =
    (leb b'a' c && leb c b'z')
    || (leb b'A' c && leb c b'Z')
    || (leb b'0' c && leb c b'9')
    || c == b'+'
    || c == b'/'
    || c == b'='

-- the longest front whose characters pass a test
unfoldable pub front : (ℕ → Bool) → Str → Str
front p [] = []
front p (c ∷ s) = let rest = front p s in if p c then c ∷ rest else []

-- the first `n` characters of the text, and the key behind them, which is not empty
abbrev with_key : Str → Str → Option Str
with_key did [] = none
with_key did (c ∷ key) = some (did ++ c ∷ key)

abbrev key_behind : Str → Option Str → Option Str
key_behind did none = none
key_behind did (some rest) = with_key did (front is_key_char rest)

-- the eight characters of "did:mx2:" as they stand in the text
abbrev eight : Str → Str
eight (a ∷ b ∷ c ∷ d ∷ e ∷ f ∷ g ∷ h ∷ s) = a ∷ b ∷ c ∷ d ∷ e ∷ f ∷ g ∷ h ∷ []
eight s = s

abbrev did_behind : Option Str → Option Str
did_behind none = none
did_behind (some rest) =
    let s = lstrip is_space rest in key_behind (eight s) (after_pattern (str "did:mx2:") s)

-- a match that begins here
unfoldable pub match_here : Str → Str → Option Str
unfolding after_pattern front is_key_char lstrip is_space
match_here name s = did_behind (after_pattern name s)

-- the first match that begins a line; `at_start` says whether a line begins here
unfoldable pub search_from : Str → Bool → Str → Option Str
unfolding nat_eq
search_from name at_start [] = none
search_from name at_start (c ∷ s) =
    let later = search_from name (c == 10) s in
    let here = match_here name (c ∷ s) in
    elim (if at_start then here else none) [ none ↦ later | some did ↦ some did ]

-- `name` is the header's name with its colon, in lower case
unfoldable pub search_did : Str → Str → Option Str
unfolding search_from match_here
search_did name raw = search_from name true raw

-- `sub in s`
unfoldable pub occurs : Str → Str → Bool
unfolding starts_with
occurs sub [] = starts_with [] sub
occurs sub (c ∷ s) = starts_with (c ∷ s) sub || occurs sub s
