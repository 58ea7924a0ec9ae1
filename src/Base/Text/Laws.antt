-- ===== src/Base/Text/Laws.antt =====
-- Laws of the text methods: how `lower` and `strip` meet, and `join` after `split`.
use Prim.Native.Nat.{ℕ}
use mathlib.Core.Path.{◌≡◌, refl, sym}
use mathlib.Core.Logic.{◌≢◌, inl, inr}
use mathlib.Core.Bool.{Bool, false}
use mathlib.Core.List.{
  List, [], ◌∷◌, ◌++◌, map, reverse, reverse-cons, reverse-reverse, reverse-append, map-append,
}
use native.Mathlib.Omega.{arith}
use mx2_sandbox.Base.Test.{Bool-cases}
use mx2_sandbox.Base.Lists.{All}
use mx2_sandbox.Base.Text.{
  Str, lower, lower_code, is_space, lstrip, rstrip, strip, split, push, join,
}

map-reverse : (f : ℕ → ℕ) (s : Str) → reverse (map f s) ≡ map f (reverse s)
map-reverse f [] = refl
map-reverse f (c ∷ s) =
    rw (reverse-cons, reverse-cons, map-reverse f s) (sym (map-append f (reverse s) (c ∷ [])))

lower_code_idem : (c : ℕ) → lower_code (lower_code c) ≡ lower_code c
unfolding lower_code
lower_code_idem c = ground arith

pub lower-lower : (s : Str) → lower (lower s) ≡ lower s
unfolding lower
lower-lower [] = refl
lower-lower (c ∷ s) = cc (lower_code_idem c, lower-lower s)

is_space-lower_code : (c : ℕ) → is_space (lower_code c) ≡ is_space c
unfolding is_space lower_code
is_space-lower_code c = ground arith

module _ (p : ℕ → Bool) where
  lstrip-lstrip : (s : Str) → lstrip p (lstrip p s) ≡ lstrip p s
  unfolding lstrip
  lstrip-lstrip [] = refl
  lstrip-lstrip (c ∷ s) = ground (arith, lstrip-lstrip s)

  rstrip-rstrip : (s : Str) → rstrip p (rstrip p s) ≡ rstrip p s
  unfolding rstrip
  rstrip-rstrip s = rw (reverse-reverse, lstrip-lstrip)

  lstrip-append : (s : Str) (c : ℕ) → p c ≡ false → lstrip p (s ++ c ∷ []) ≡ lstrip p s ++ c ∷ []
  unfolding lstrip
  lstrip-append [] c h = rw h
  lstrip-append (d ∷ s) c h = ground (arith, lstrip-append s c h)

  lstrip-cons : (c : ℕ) (s : Str) → p c ≡ false → (t : Str) × (rstrip p (c ∷ s) ≡ c ∷ t)
  unfolding rstrip
  lstrip-cons c s h = (
    reverse (lstrip p (reverse s)),
    rw (reverse-cons, lstrip-append (reverse s) c h, reverse-append) refl,
  )

  rstrip-nil : rstrip p [] ≡ []
  unfolding rstrip lstrip
  rstrip-nil = refl

  -- the left end of what `lstrip` left is no character of the set, so `rstrip` keeps it
  lstrip-rstrip-lstrip : (s : Str) → lstrip p (rstrip p (lstrip p s)) ≡ rstrip p (lstrip p s)
  unfolding lstrip
  lstrip-rstrip-lstrip [] = rw rstrip-nil
  lstrip-rstrip-lstrip (c ∷ s) = elim (Bool-cases (p c)) [
    | inl space ↦ rw space (lstrip-rstrip-lstrip s)
    | inr solid ↦ let (t, e) = lstrip-cons c s solid in rw solid (rw e (rw solid))
  ]

  -- stripping commutes with a map that keeps the set
  module _ (f : ℕ → ℕ) (keeps : (c : ℕ) → p (f c) ≡ p c) where
    lstrip-map : (s : Str) → lstrip p (map f s) ≡ map f (lstrip p s)
    unfolding lstrip
    lstrip-map [] = refl
    lstrip-map (c ∷ s) = ground (arith, keeps c, lstrip-map s)

    rstrip-map : (s : Str) → rstrip p (map f s) ≡ map f (rstrip p s)
    unfolding rstrip
    rstrip-map s = rw (map-reverse, lstrip-map, map-reverse)

pub strip-strip : (s : Str) → strip (strip s) ≡ strip s
unfolding strip
strip-strip s = rw (lstrip-rstrip-lstrip is_space s) (rstrip-rstrip is_space (lstrip is_space s))

strip-map_lower :
    (s : Str)
    → rstrip is_space (lstrip is_space (map lower_code s))
      ≡ map lower_code (rstrip is_space (lstrip is_space s))
strip-map_lower s = rw (
  lstrip-map is_space lower_code is_space-lower_code,
  rstrip-map is_space lower_code is_space-lower_code,
)

pub strip-lower : (s : Str) → strip (lower s) ≡ lower (strip s)
unfolding strip lower
strip-lower s = strip-map_lower s

push-join :
    (sep c : ℕ) (ws : List Str) → ws ≢ [] → join (sep ∷ []) (push c ws) ≡ c ∷ join (sep ∷ []) ws
unfolding join
push-join sep c [] h = absurd (h refl)
push-join sep c (w ∷ []) h = refl
push-join sep c (w ∷ v ∷ ws) h = refl

push-ne-nil : (c : ℕ) (ws : List Str) → push c ws ≢ []
push-ne-nil c [] = λ h. cc
push-ne-nil c (w ∷ ws) = λ h. cc

split-ne-nil : (sep : ℕ) (s : Str) → split sep s ≢ []
unfolding split
split-ne-nil sep [] h = cc
split-ne-nil sep (c ∷ s) h = ground (arith, push-ne-nil c (split sep s))

join-nil_cons :
    (sep : ℕ) (ws : List Str) → ws ≢ [] → join (sep ∷ []) ([] ∷ ws) ≡ sep ∷ join (sep ∷ []) ws
unfolding join
join-nil_cons sep [] h = absurd (h refl)
join-nil_cons sep (w ∷ ws) h = refl

join-split_step :
    (sep c : ℕ) (s : Str)
    → join (sep ∷ []) (split sep s) ≡ s
    → join (sep ∷ []) (split sep (c ∷ s)) ≡ c ∷ s
unfolding split
join-split_step sep c s ih = ground (
  arith,
  join-nil_cons sep (split sep s) (split-ne-nil sep s),
  push-join sep c (split sep s) (split-ne-nil sep s),
)

-- The parts of a split, joined by the separator, are the text.
pub join-split : (sep : ℕ) (s : Str) → join (sep ∷ []) (split sep s) ≡ s
join-split sep [] = unfold split join in refl
join-split sep (c ∷ s) = join-split_step sep c s (join-split sep s)

-- a text with no white space
abbrev pub IsSolid : Str → Type 0
IsSolid s = All (λ c. is_space c ≡ false) s

All-concat : (s : Str) (c : ℕ) → IsSolid s → is_space c ≡ false → IsSolid (s ++ c ∷ [])
All-concat [] c h k = (k, tt)
All-concat (d ∷ s) c (e, h) k = (e, All-concat s c h k)

reverse-IsSolid : (s : Str) → IsSolid s → IsSolid (reverse s)
reverse-IsSolid [] h = tt
reverse-IsSolid (c ∷ s) (k, h) = rw reverse-cons (All-concat (reverse s) c (reverse-IsSolid s h) k)

lstrip_solid : (s : Str) → IsSolid s → lstrip is_space s ≡ s
unfolding lstrip
lstrip_solid [] h = refl
lstrip_solid (c ∷ s) (k, h) = rw k

pub strip_solid : (s : Str) → IsSolid s → strip s ≡ s
strip_solid s h =
    unfold strip in
    rw (lstrip_solid s h, lstrip_solid (reverse s) (reverse-IsSolid s h), reverse-reverse)

-- the separator does not occur
abbrev pub Lacks : ℕ → Str → Type 0
Lacks sep s = All (λ c. c ≢ sep) s

-- A part without the separator is split off whole.
pub split-append : (sep : ℕ) (w s : Str) → Lacks sep w → split sep (w ++ sep ∷ s) ≡ w ∷ split sep s
unfolding split
split-append sep [] s h = ground arith
split-append sep (c ∷ w) s (k, h) = rw (split-append sep w s h) (ground arith)

pub split-Lacks : (sep : ℕ) (w : Str) → Lacks sep w → split sep w ≡ w ∷ []
unfolding split
split-Lacks sep [] h = refl
split-Lacks sep (c ∷ w) (k, h) = rw (split-Lacks sep w h) (ground arith)

-- A text that starts with no white space is not empty when it is stripped.
pub strip-ne-nil : (c : ℕ) (s : Str) → is_space c ≡ false → strip (c ∷ s) ≢ []
unfolding strip lstrip
strip-ne-nil c s h = let (t, e) = lstrip-cons is_space c s h in rw h (rw e (λ k. cc))
