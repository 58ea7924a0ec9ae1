-- ===== src/AntiSpam/Pow/Bits.antt =====
-- `verify_proof_of_work` of src/anti_spam.py and the bits of the digest.
use mx2_sandbox.Base.{
  ℕ, zero, suc, ◌+◌, ◌*◌, ◌≤◌, ◌<◌, ◌≡◌, ◌≢◌, ◌↔◌, refl, Str, true, [], ◌∷◌, ◌++◌, leb, length,
  length-append, take, All, arith, ◌==◌, nat_eq, if◌then◌else◌,
}
use native.Mathlib.Decide.{ℕ_discrete}
use mx2_sandbox.Base.Text.{lstrip}
use mx2_sandbox.Runtime.{Runtime, IsLawful, Bytes, Is32}
use mx2_sandbox.AntiSpam.Pow.{
  binary_str, leading_zeros, total_zero_bits, pow_digest, verify_proof_of_work,
}

-- the bits of a digest, the highest bit of the first byte first
abbrev pub bits : Bytes → Str
bits [] = []
bits (b ∷ h) = binary_str b ++ bits h

-- how many characters at the front are "0"
abbrev zeros : Str → ℕ
zeros [] = 0
zeros (c ∷ s) = let n = zeros s in if c == b'0' then suc n else 0

length-lstrip : (s : Str) → length (lstrip (λ c. c == b'0') s) + zeros s ≡ length s
unfolding lstrip
length-lstrip [] = omega arith
length-lstrip (c ∷ s) = ground (arith, length-lstrip s)

leading_zeros_lem : (b : ℕ) → leading_zeros b ≡ zeros (binary_str b)
leading_zeros_lem b = unfold leading_zeros in omega (arith, length-lstrip (binary_str b))

length-binary_str : (b : ℕ) → length (binary_str b) ≡ 8
unfolding binary_str
length-binary_str b = refl

-- a byte other than 0 has a bit that is not zero
zeros-lt : (b : ℕ) → b < 256 → b ≢ 0 → zeros (binary_str b) < 8
unfolding binary_str
zeros-lt b h k = ground arith

zeros-append_stop : (s t : Str) → zeros s < length s → zeros (s ++ t) ≡ zeros s
zeros-append_stop [] t h = ground arith
zeros-append_stop (c ∷ s) t h = ground (arith, zeros-append_stop s t)

zero_byte : (s : Str) → zeros (binary_str 0 ++ s) ≡ 8 + zeros s
unfolding binary_str nat_eq
zero_byte s = omega arith

total_zero_bits_lem :
    (total : ℕ) (h : Bytes)
    → All (λ b. b < 256) h
    → total_zero_bits total h ≡ total + zeros (bits h)
unfolding total_zero_bits
total_zero_bits_lem total [] u = omega arith
total_zero_bits_lem total (b ∷ h) (k, u) = elim (ℕ_discrete b 0) [
  | yes z ↦ rw z (omega (arith, zero_byte (bits h), total_zero_bits_lem (total + 8) h u))
  | no n ↦
      rw (zeros-append_stop (binary_str b) (bits h) (rw length-binary_str (zeros-lt b k n)))
        (ground (arith, leading_zeros_lem b))
]

le-zeros_iff : (d : ℕ) (s : Str) → d ≤ length s → (d ≤ zeros s) ↔ All (λ c. c ≡ b'0') (take d s)
le-zeros_iff zero s h = (λ k. tt, λ k. omega arith)
le-zeros_iff (suc d) [] h = absurd (omega arith)
le-zeros_iff (suc d) (c ∷ s) h = ground (arith, le-zeros_iff d s)

length-bits : (h : Bytes) → length (bits h) ≡ 8 * length h
length-bits [] = omega arith
length-bits (b ∷ h) =
    omega (arith, length-append (binary_str b) (bits h), length-binary_str b, length-bits h)

leb_iff : (d n m : ℕ) → n ≡ 0 + m → (leb d n ≡ true) ↔ (d ≤ m)
leb_iff d n m e = ground arith

accepted_iff :
    (d : ℕ) (h : Bytes)
    → Is32 h
    → d ≤ 256
    → (leb d (total_zero_bits 0 h) ≡ true) ↔ All (λ c. c ≡ b'0') (take d (bits h))
accepted_iff d h (n, u) k =
    let test = leb_iff d (total_zero_bits 0 h) (zeros (bits h)) (total_zero_bits_lem 0 h u) in
    let front = le-zeros_iff d (bits h) (omega (arith, length-bits h)) in
    (λ t. front.0 (test.0 t), λ a. test.1 (front.1 a))

-- Over a lawful runtime, for any difficulty up to the 256 bits of a digest: a nonce is accepted
-- exactly if the digest of "challenge:nonce" begins with that many zero bits.
pub verify_proof_of_work_iff :
    (R : Runtime)
    → IsLawful R
    → (challenge nonce : Str) (difficulty : ℕ) → difficulty ≤ 256
    → (verify_proof_of_work R challenge nonce difficulty ≡ true)
      ↔ All (λ c. c ≡ b'0') (take difficulty (bits (pow_digest R challenge nonce)))
unfolding verify_proof_of_work
verify_proof_of_work_iff R L challenge nonce d h =
    accepted_iff d (pow_digest R challenge nonce) (L.sha256-Is32 _) h
