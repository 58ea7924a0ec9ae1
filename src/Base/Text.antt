-- ===== src/Base/Text.antt =====
-- Python's `str` as a list of code points, and the methods that the program calls. Case changes
-- are those of the ASCII letters; other code points are left alone.
use Prim.Native.Nat.{ℕ, zero, suc, ◌+◌, ◌-◌}
use Prim.Native.Char.{code}
use Prim.Native.String.{String}
use mathlib.Core.Bool.{Bool, true, false, ◌&&◌, ◌||◌}
use mathlib.Core.List.{List, [], ◌∷◌, ◌++◌, map, reverse}
use mx2_sandbox.Base.Test.{leb, if◌then◌else◌}
use mx2_sandbox.Base.Equality.{◌==◌, nat_eq}
use mx2_sandbox.Base.Lists.{length}
pub mod Laws
pub mod Lines

abbrev pub Str : Type 0
Str = List ℕ

abbrev pub str : String → Str
str String.[] = []
str (String.◌∷◌ c s) = code c ∷ str s

-- `s.lower()`
unfoldable pub lower_code : ℕ → ℕ
lower_code c = if leb b'A' c && leb c b'Z' then c + 32 else c

unfoldable pub lower : Str → Str
unfolding lower_code
lower = map lower_code

-- `s.upper()`
unfoldable pub upper_code : ℕ → ℕ
upper_code c = if leb b'a' c && leb c b'z' then c - 32 else c

unfoldable pub upper : Str → Str
unfolding upper_code
upper = map upper_code

-- `c.isspace()`
unfoldable pub is_space : ℕ → Bool
unfolding nat_eq
is_space c =
    (leb 9 c && leb c 13)
    || (leb 28 c && leb c 32)
    || c == 0x85
    || c == 0xa0
    || c == 0x1680
    || (leb 0x2000 c && leb c 0x200a)
    || c == 0x2028
    || c == 0x2029
    || c == 0x202f
    || c == 0x205f
    || c == 0x3000

-- `s.lstrip(chars)`, with the set of characters as a test
unfoldable pub lstrip : (ℕ → Bool) → Str → Str
lstrip p [] = []
lstrip p (c ∷ s) = let r = lstrip p s in if p c then r else c ∷ s

unfoldable pub rstrip : (ℕ → Bool) → Str → Str
unfolding lstrip
rstrip p s = reverse (lstrip p (reverse s))

-- `s.strip()`
unfoldable pub strip : Str → Str
unfolding lstrip rstrip is_space
strip s = rstrip is_space (lstrip is_space s)

-- `s.startswith(p)`
unfoldable pub starts_with : Str → Str → Bool
unfolding nat_eq
starts_with s [] = true
starts_with [] (c ∷ p) = false
starts_with (d ∷ s) (c ∷ p) = d == c && starts_with s p

abbrev pub push : ℕ → List Str → List Str
push c [] = (c ∷ []) ∷ []
push c (w ∷ ws) = (c ∷ w) ∷ ws

-- `s.split(sep)` for a separator of one character
unfoldable pub split : ℕ → Str → List Str
unfolding nat_eq
split sep [] = [] ∷ []
split sep (c ∷ s) = let r = split sep s in if c == sep then [] ∷ r else push c r

-- the pieces between the characters that pass a test
unfoldable pub split_at : (ℕ → Bool) → Str → List Str
split_at p [] = [] ∷ []
split_at p (c ∷ s) = let r = split_at p s in if p c then [] ∷ r else push c r

abbrev pub without_empty : List Str → List Str
without_empty [] = []
without_empty ([] ∷ ws) = without_empty ws
without_empty ((c ∷ w) ∷ ws) = (c ∷ w) ∷ without_empty ws

-- `s.split()`
unfoldable pub words : Str → List Str
unfolding split_at is_space
words s = without_empty (split_at is_space s)

-- `s.split(sep, 1)`
unfoldable pub split_once : ℕ → Str → List Str
unfolding nat_eq
split_once sep [] = [] ∷ []
split_once sep (c ∷ s) = let r = split_once sep s in if c == sep then [] ∷ s ∷ [] else push c r

-- `xs[0]` and `xs[-1]` of a list that `split` returned, which is not empty
abbrev pub first_of_split : List Str → Str
first_of_split [] = []
first_of_split (w ∷ ws) = w

abbrev pub last_of_split : List Str → Str
last_of_split [] = []
last_of_split (w ∷ []) = w
last_of_split (w ∷ v ∷ ws) = last_of_split (v ∷ ws)

-- `sep.join(xs)`
unfoldable pub join : Str → List Str → Str
join sep [] = []
join sep (w ∷ []) = w
join sep (w ∷ v ∷ ws) = w ++ (sep ++ join sep (v ∷ ws))

-- a character at which `splitlines` ends a line
unfoldable pub is_line_end : ℕ → Bool
unfolding nat_eq
is_line_end c =
    (leb 10 c && leb c 13) || (leb 28 c && leb c 30) || c == 0x85 || c == 0x2028 || c == 0x2029

-- The lines of `line ++ s`, where `line` is the line that is being read. `\r\n` ends one line.
unfoldable pub lines_from : Str → Str → List Str
unfolding nat_eq is_line_end
lines_from [] [] = []
lines_from (x ∷ line) [] = (x ∷ line) ∷ []
lines_from line (c ∷ []) = if is_line_end c then line ∷ [] else (line ++ c ∷ []) ∷ []
lines_from line (c ∷ d ∷ s) =
    let crlf = lines_from [] s in
    let ended = lines_from [] (d ∷ s) in
    let more = lines_from (line ++ c ∷ []) (d ∷ s) in
    if c == 13 && d == 10 then line ∷ crlf else if is_line_end c then line ∷ ended else more

-- `s.splitlines()`
unfoldable pub splitlines : Str → List Str
unfolding lines_from
splitlines = lines_from []

-- `s.replace(old, "")` of a text `old` that is not empty; the number counts the characters of an
-- occurrence that are still to be skipped.
unfoldable pub remove_from : Str → ℕ → Str → Str
remove_from old n [] = []
remove_from old (suc n) (c ∷ s) = remove_from old n s
remove_from old zero (c ∷ s) =
    let skipped = remove_from old (length old - 1) s in
    let kept = remove_from old zero s in if starts_with (c ∷ s) old then skipped else c ∷ kept

unfoldable pub remove_all : Str → Str → Str
unfolding remove_from
remove_all old = remove_from old 0
