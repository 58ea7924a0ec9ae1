-- ===== src/Base/Decimal.antt =====
-- `str(n)` and `int(s)` of natural numbers, and the round trip. `int` is modelled on digits with
-- white space around them; signs and underscores are not.
use Prim.Native.Nat.{ℕ, zero, suc, ◌+◌, ◌-◌, ◌*◌, ◌/◌, ◌%◌, ◌≤◌, ◌<◌}
use mathlib.Core.Bool.{◌&&◌}
use mathlib.Core.Path.{◌≡◌, ◌∙◌, refl, ap}
use mathlib.Core.Logic.{◌≢◌, inl, inr}
use mathlib.Core.Bool.{false}
use mathlib.Core.Option.{Option, none, some}
use mathlib.Core.List.{[], ◌∷◌}
use native.Mathlib.Omega.{arith}
use mx2_sandbox.Base.Test.{ltb, leb, if◌then◌else◌, Bool-cases}
use mx2_sandbox.Base.Lists.{All}
use mx2_sandbox.Base.Text.{Str, strip, is_space}
use mx2_sandbox.Base.Text.Laws.{IsSolid, strip_solid}

-- the digits of `n` before `s`; `n < fuel` is enough
unfoldable pub digits_before : ℕ → ℕ → Str → Str
digits_before zero n s = s
digits_before (suc fuel) n s =
    let more = digits_before fuel (n / 10) ((b'0' + n % 10) ∷ s) in
    if ltb n 10 then (b'0' + n) ∷ s else more

-- `str(n)`
unfoldable pub decimal : ℕ → Str
unfolding digits_before
decimal n = digits_before (suc n) n []

unfoldable pub read_digits : ℕ → Str → Option ℕ
read_digits n [] = some n
read_digits n (c ∷ s) =
    let rest = read_digits (n * 10 + (c - b'0')) s in
    if leb b'0' c && leb c b'9' then rest else none

abbrev pub digits_of : Str → Option ℕ
digits_of [] = none
digits_of (c ∷ s) = read_digits 0 (c ∷ s)

-- `int(s)`, with `none` for a `ValueError`
unfoldable pub int_of : Str → Option ℕ
unfolding read_digits
int_of s = digits_of (strip s)

read_digits_step :
    (n d : ℕ) (s : Str) → d < 10 → read_digits n ((b'0' + d) ∷ s) ≡ read_digits (n * 10 + d) s
unfolding read_digits
read_digits_step n d s h = ground arith

read_digits-digits_before :
    (fuel n : ℕ) (s : Str) → n < fuel → read_digits 0 (digits_before fuel n s) ≡ read_digits n s
unfolding digits_before
read_digits-digits_before zero n s h = absurd (omega arith)
read_digits-digits_before (suc fuel) n s h = elim (Bool-cases (ltb n 10)) [
  | inl small ↦
      rw small (read_digits_step 0 n s (ground arith) ∙ ap (λ k. read_digits k s) (omega arith))
  | inr large ↦ rw large (
      read_digits-digits_before fuel (n / 10) ((b'0' + n % 10) ∷ s) (ground arith)
      ∙ read_digits_step (n / 10) (n % 10) s (omega arith)
      ∙ ap (λ k. read_digits k s) (omega arith))
]

read_decimal : (n : ℕ) → read_digits 0 (decimal n) ≡ some n
unfolding decimal
read_decimal n = read_digits-digits_before (suc n) n [] (omega arith) ∙ unfold read_digits in refl

abbrev pub IsDigits : Str → Type 0
IsDigits s = All (λ c. (b'0' ≤ c) × (c ≤ b'9')) s

digits_before-IsDigits : (fuel n : ℕ) (s : Str) → IsDigits s → IsDigits (digits_before fuel n s)
unfolding digits_before
digits_before-IsDigits zero n s h = h
digits_before-IsDigits (suc fuel) n s h =
    ground (arith, digits_before-IsDigits fuel (n / 10) ((b'0' + n % 10) ∷ s))

pub decimal-IsDigits : (n : ℕ) → IsDigits (decimal n)
unfolding decimal
decimal-IsDigits n = digits_before-IsDigits (suc n) n [] tt

digit-solid : (c : ℕ) → b'0' ≤ c → c ≤ b'9' → is_space c ≡ false
unfolding is_space
digit-solid c h k = ground arith

pub digits-IsSolid : (s : Str) → IsDigits s → IsSolid s
digits-IsSolid [] h = tt
digits-IsSolid (c ∷ s) ((a, b), h) = (digit-solid c a b, digits-IsSolid s h)

digits_of-read_digits : (s : Str) (n : ℕ) → s ≢ [] → read_digits 0 s ≡ some n → digits_of s ≡ some n
digits_of-read_digits [] n h e = absurd (h refl)
digits_of-read_digits (c ∷ s) n h e = e

digits_before-ne-nil : (fuel n : ℕ) (s : Str) → s ≢ [] → digits_before fuel n s ≢ []
unfolding digits_before
digits_before-ne-nil zero n s h = h
digits_before-ne-nil (suc fuel) n s h =
    ground (arith, digits_before-ne-nil fuel (n / 10) ((b'0' + n % 10) ∷ s))

pub decimal-ne-nil : (n : ℕ) → decimal n ≢ []
unfolding decimal digits_before
decimal-ne-nil n = ground (arith, digits_before-ne-nil n (n / 10) ((b'0' + n % 10) ∷ []))

-- A number is read back from its decimal text.
pub int_of-decimal : (n : ℕ) → int_of (decimal n) ≡ some n
int_of-decimal n =
    unfold int_of in
    rw (strip_solid (decimal n) (digits-IsSolid (decimal n) (decimal-IsDigits n)))
      (digits_of-read_digits (decimal n) n (decimal-ne-nil n) (read_decimal n))
