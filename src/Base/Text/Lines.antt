-- ===== src/Base/Text/Lines.antt =====
-- `splitlines` after a join by line feeds, and `split()` of two words.
use Prim.Native.Nat.{ℕ, ◌≤◌}
use mathlib.Core.Path.{◌≡◌, ◌∙◌, refl, ap}
use mathlib.Core.Logic.{◌≢◌}
use mathlib.Core.Bool.{Bool, false, ◌||◌}
use mathlib.Core.List.{List, [], ◌∷◌, ◌++◌, append_assoc, append-nil}
use native.Mathlib.Omega.{arith}
use mx2_sandbox.Base.Lists.{All}
use mx2_sandbox.Base.Text.{
  Str, is_line_end, lines_from, splitlines, join, last_of_split, is_space, split_at, words,
  without_empty,
}
use mx2_sandbox.Base.Text.Laws.{IsSolid}

-- a text with no end of a line
abbrev pub IsLine : Str → Type 0
IsLine s = All (λ c. is_line_end c ≡ false) s

-- the tests of the two, for fixed texts
abbrev pub has_line_end : Str → Bool
has_line_end [] = false
has_line_end (c ∷ s) = is_line_end c || has_line_end s

abbrev pub has_space : Str → Bool
has_space [] = false
has_space (c ∷ s) = is_space c || has_space s

pub has_line_end-IsLine : (s : Str) → has_line_end s ≡ false → IsLine s
has_line_end-IsLine [] h = tt
has_line_end-IsLine (c ∷ s) h = (ground arith, has_line_end-IsLine s (ground arith))

pub has_space-IsSolid : (s : Str) → has_space s ≡ false → IsSolid s
has_space-IsSolid [] h = tt
has_space-IsSolid (c ∷ s) h = (ground arith, has_space-IsSolid s (ground arith))

pub append-IsLine : (s t : Str) → IsLine s → IsLine t → IsLine (s ++ t)
append-IsLine [] t h k = k
append-IsLine (c ∷ s) t (e, h) k = (e, append-IsLine s t h k)

digit_no_end : (c : ℕ) → b'0' ≤ c → c ≤ b'9' → is_line_end c ≡ false
unfolding is_line_end
digit_no_end c h k = ground arith

pub digits-IsLine : (s : Str) → All (λ c. (b'0' ≤ c) × (c ≤ b'9')) s → IsLine s
digits-IsLine [] h = tt
digits-IsLine (c ∷ s) ((a, b), h) = (digit_no_end c a b, digits-IsLine s h)

not_return : (c : ℕ) → is_line_end c ≡ false → c ≢ 13
unfolding is_line_end
not_return c h e = ground arith

lines_from_skip :
    (line s : Str) (c d : ℕ)
    → is_line_end c ≡ false
    → lines_from line (c ∷ d ∷ s) ≡ lines_from (line ++ c ∷ []) (d ∷ s)
unfolding lines_from
lines_from_skip line s c d h = ground (arith, not_return c h)

lines_from_feed : (line s : Str) → lines_from line (10 ∷ s) ≡ line ∷ lines_from [] s
unfolding lines_from is_line_end
lines_from_feed line [] = refl
lines_from_feed line (d ∷ s) = refl

lines_from-line :
    (line w s : Str) → IsLine w → lines_from line (w ++ 10 ∷ s) ≡ (line ++ w) ∷ lines_from [] s
lines_from-line line [] s h = rw append-nil (lines_from_feed line s)
lines_from-line line (c ∷ []) s (e, h) =
    lines_from_skip line s c 10 e ∙ lines_from_feed (line ++ c ∷ []) s
lines_from-line line (c ∷ d ∷ w) s (e, h) =
    lines_from_skip line (w ++ 10 ∷ s) c d e
    ∙ lines_from-line (line ++ c ∷ []) (d ∷ w) s h
    ∙ ap (λ x. x ∷ lines_from [] s) (append_assoc line (c ∷ []) (d ∷ w))

lines_from-last : (line w : Str) → IsLine w → w ≢ [] → lines_from line w ≡ (line ++ w) ∷ []
unfolding lines_from
lines_from-last line [] h k = absurd (k refl)
lines_from-last line (c ∷ []) (e, h) k = ground arith
lines_from-last line (c ∷ d ∷ w) (e, h) k =
    lines_from_skip line w c d e
    ∙ lines_from-last (line ++ c ∷ []) (d ∷ w) h (ground arith)
    ∙ ap (λ x. x ∷ []) (append_assoc line (c ∷ []) (d ∷ w))

-- Lines that are joined by line feeds are read back, if the last one is not empty.
pub splitlines-join :
    (ws : List Str) → All IsLine ws → last_of_split ws ≢ [] → splitlines (join (10 ∷ []) ws) ≡ ws
unfolding splitlines join
splitlines-join [] h k = absurd (k refl)
splitlines-join (w ∷ []) (e, h) k = lines_from-last [] w e k
splitlines-join (w ∷ v ∷ ws) (e, h) k =
    lines_from-line [] w (join (10 ∷ []) (v ∷ ws)) e
    ∙ ap (λ x. w ∷ x) (splitlines-join (v ∷ ws) h k)

split_at-solid : (s : Str) → IsSolid s → split_at is_space s ≡ s ∷ []
unfolding split_at
split_at-solid [] h = refl
split_at-solid (c ∷ s) (e, h) = rw (e, split_at-solid s h) refl

split_at-first : (s t : Str) → IsSolid s → split_at is_space (s ++ 32 ∷ t) ≡ s ∷ split_at is_space t
unfolding split_at is_space
split_at-first [] t h = refl
split_at-first (c ∷ s) t (e, h) = rw (e, split_at-first s t h) refl

without_empty_pair : (s t : Str) → s ≢ [] → t ≢ [] → without_empty (s ∷ t ∷ []) ≡ s ∷ t ∷ []
without_empty_pair [] t i j = absurd (i refl)
without_empty_pair (c ∷ s) [] i j = absurd (j refl)
without_empty_pair (c ∷ s) (d ∷ t) i j = refl

-- Two words with a space between them are found.
pub words_pair :
    (s t : Str) → IsSolid s → IsSolid t → s ≢ [] → t ≢ [] → words (s ++ 32 ∷ t) ≡ s ∷ t ∷ []
unfolding words
words_pair s t h k i j = rw (split_at-first s t h, split_at-solid t k) (without_empty_pair s t i j)

-- lines that each end with a line feed
abbrev pub closed : List Str → Str
closed [] = []
closed (w ∷ ws) = w ++ 10 ∷ closed ws

pub splitlines-closed : (ws : List Str) → All IsLine ws → splitlines (closed ws) ≡ ws
unfolding splitlines lines_from
splitlines-closed [] h = refl
splitlines-closed (w ∷ ws) (e, h) =
    lines_from-line [] w (closed ws) e ∙ ap (λ x. w ∷ x) (splitlines-closed ws h)
