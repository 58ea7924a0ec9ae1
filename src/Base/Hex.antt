-- ===== src/Base/Hex.antt =====
-- `bytes.fromhex` and `bytes.hex`, and the round trip.
use mathlib.Core.Bool.{◌&&◌, ◌||◌}
use mathlib.Core.Path.{◌≡◌, refl, ap}
use mathlib.Core.Bool.{Bool, false}
use mathlib.Core.Option.{Option, none, some}
use mathlib.Core.List.{List, [], ◌∷◌}
use Prim.Native.Nat.{ℕ, ◌+◌, ◌-◌, ◌*◌, ◌/◌, ◌%◌, ◌<◌}
use native.Mathlib.Omega.{arith}
use mx2_sandbox.Base.Test.{ltb, leb, if◌then◌else◌}
use mx2_sandbox.Base.Lists.{All}
use mx2_sandbox.Base.Equality.{◌==◌, nat_eq}
use mx2_sandbox.Base.Text.{Str, is_space}
use mx2_sandbox.Base.Text.Laws.{IsSolid}

-- the value of a hexadecimal digit
hex_value : ℕ → Option ℕ
hex_value c =
    if leb b'0' c && leb c b'9'
    then some (c - b'0')
    else if leb b'a' c && leb c b'f'
    then some (c - 87)
    else if leb b'A' c && leb c b'F'
    then some (c - 55)
    else none

-- the white space that `fromhex` skips between two bytes
hex_space : ℕ → Bool
unfolding nat_eq
hex_space c = (leb 9 c && leb c 13) || c == 32

abbrev combine : Option ℕ → Option ℕ → Option ℕ
combine (some h) (some l) = some (h * 16 + l)
combine _ _ = none

pair_value : ℕ → ℕ → Option ℕ
unfolding hex_value
pair_value c d = combine (hex_value c) (hex_value d)

prepend : Option ℕ → Option (List ℕ) → Option (List ℕ)
prepend (some b) (some bs) = some (b ∷ bs)
prepend _ _ = none

-- `bytes.fromhex(s)`, with `none` for a `ValueError`
unfoldable pub from_hex : Str → Option (List ℕ)
unfolding pair_value hex_space prepend
from_hex [] = some []
from_hex (c ∷ []) = if hex_space c then some [] else none
from_hex (c ∷ d ∷ s) =
    let skipped = from_hex (d ∷ s) in
    let read = prepend (pair_value c d) (from_hex s) in if hex_space c then skipped else read

unfoldable pub hex_digit : ℕ → ℕ
hex_digit n = if ltb n 10 then n + b'0' else n + 87

-- `b.hex()`
unfoldable pub to_hex : List ℕ → Str
unfolding hex_digit
to_hex [] = []
to_hex (b ∷ bs) = hex_digit (b / 16) ∷ hex_digit (b % 16) ∷ to_hex bs

hex_value-hex_digit : (n : ℕ) → n < 16 → hex_value (hex_digit n) ≡ some n
unfolding hex_value hex_digit
hex_value-hex_digit n h = ground arith

hex_space-hex_digit : (n : ℕ) → n < 16 → hex_space (hex_digit n) ≡ false
unfolding hex_space hex_digit
hex_space-hex_digit n h = ground arith

pair_value-hex_digit :
    (b : ℕ) → b < 256 → pair_value (hex_digit (b / 16)) (hex_digit (b % 16)) ≡ some b
unfolding pair_value
pair_value-hex_digit b h =
    rw (hex_value-hex_digit (b / 16) (omega arith), hex_value-hex_digit (b % 16) (omega arith))
      (ap {B = Option ℕ} some (omega arith))

from_hex-to_hex_step :
    (b : ℕ) (bs : List ℕ)
    → b < 256
    → from_hex (to_hex bs) ≡ some bs
    → from_hex (to_hex (b ∷ bs)) ≡ some (b ∷ bs)
from_hex-to_hex_step b bs h e =
    unfold from_hex to_hex in
    rw (hex_space-hex_digit (b / 16) (omega arith), pair_value-hex_digit b h, prepend, e)

-- The hexadecimal text of bytes reads back as these bytes.
pub from_hex-to_hex : (bs : List ℕ) → All (λ b. b < 256) bs → from_hex (to_hex bs) ≡ some bs
from_hex-to_hex [] h = unfold from_hex to_hex in refl
from_hex-to_hex (b ∷ bs) (h, u) = from_hex-to_hex_step b bs h (from_hex-to_hex bs u)

is_space-hex_digit : (n : ℕ) → n < 16 → is_space (hex_digit n) ≡ false
unfolding is_space hex_digit
is_space-hex_digit n h = ground arith

pub to_hex-IsSolid : (bs : List ℕ) → All (λ b. b < 256) bs → IsSolid (to_hex bs)
to_hex-IsSolid [] h = unfold to_hex in tt
to_hex-IsSolid (b ∷ bs) (h, u) = to_hex-IsSolid_step (to_hex-IsSolid bs u)
  where
    to_hex-IsSolid_step : IsSolid (to_hex bs) → IsSolid (to_hex (b ∷ bs))
    to_hex-IsSolid_step rest =
        unfold to_hex in
        (
          is_space-hex_digit (b / 16) (omega arith),
          (is_space-hex_digit (b % 16) (omega arith), rest),
        )
