-- ===== src/AntiSpam/Pow.antt =====
-- `verify_proof_of_work` of src/anti_spam.py.
pub mod Bits
use mx2_sandbox.Base.{
  ℕ, zero, suc, ◌+◌, ◌-◌, ◌*◌, ◌/◌, ◌%◌, ◌^◌, Str, str, Bool, List, [], ◌∷◌, ◌++◌, leb, length,
  ◌==◌, nat_eq, if◌then◌else◌,
}
use mx2_sandbox.Base.Text.{lstrip}
use mx2_sandbox.Runtime.{Runtime, Bytes}

-- the `n` lowest binary digits of a number, the highest first
unfoldable pub binary : ℕ → ℕ → Str
binary zero b = []
binary (suc n) b = (b'0' + b / 2 ^ n % 2) ∷ binary n b

-- `f"{byte:08b}"`
unfoldable pub binary_str : ℕ → Str
unfolding binary
binary_str byte = binary 8 byte

-- `len(binary_str) - len(binary_str.lstrip("0"))`
unfoldable pub leading_zeros : ℕ → ℕ
unfolding binary_str lstrip nat_eq
leading_zeros byte = length (binary_str byte) - length (lstrip (λ c. c == b'0') (binary_str byte))

-- the loop over the bytes of the digest
unfoldable pub total_zero_bits : ℕ → Bytes → ℕ
unfolding nat_eq
total_zero_bits total [] = total
total_zero_bits total (byte ∷ h) =
    let next = total_zero_bits (total + 8) h in
    if byte == 0 then next else total + leading_zeros byte

module _ (R : Runtime) where
  unfoldable pub pow_digest : Str → Str → Bytes
  pow_digest challenge_payload nonce = R.sha256 (R.encode (challenge_payload ++ (str ":" ++ nonce)))

  -- `verify_proof_of_work`
  unfoldable pub verify_proof_of_work : Str → Str → ℕ → Bool
  unfolding total_zero_bits pow_digest
  verify_proof_of_work challenge_payload nonce difficulty_bits =
      leb difficulty_bits (total_zero_bits 0 (pow_digest challenge_payload nonce))
