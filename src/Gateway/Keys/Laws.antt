-- ===== src/Gateway/Keys/Laws.antt =====
-- The key parsers of src/gateway.py on keys in hexadecimal.
use mx2_sandbox.Base.{
  ℕ, ◌<◌, ◌≡◌, ◌≢◌, refl, Str, false, some, [], ◌∷◌, ◌++◌, ◌/◌, ◌%◌, All, arith, nat_eq, list_eq,
}
use mx2_sandbox.Base.Text.{starts_with, remove_all, remove_from}
use mx2_sandbox.Base.Text.Laws.{strip_solid}
use mx2_sandbox.Base.Hex.{from_hex, to_hex, hex_digit, from_hex-to_hex, to_hex-IsSolid}
use mx2_sandbox.Runtime.{Runtime, Bytes, Is32}
use mx2_sandbox.Gateway.Keys.{
  parse_x25519_private_key, parse_x25519_public_key, raw_key, without_did, of_length_32, did_prefix,
  sandbox_key,
}

-- the attempt to read a key from the text of its bytes
pub raw_of_hex : (b : Bytes) → Is32 b → of_length_32 (from_hex (to_hex b)) ≡ some b
raw_of_hex b (n, h) = rw (from_hex-to_hex b h) (ground arith)

-- a text in which `i` does not occur
abbrev NoLetterI : Str → Type 0
NoLetterI s = All (λ c. c ≢ b'i') s

hex_digit-ne-i : (n : ℕ) → n < 16 → hex_digit n ≢ b'i'
unfolding hex_digit
hex_digit-ne-i n h = ground arith

to_hex-NoLetterI : (b : Bytes) → All (λ x. x < 256) b → NoLetterI (to_hex b)
unfolding to_hex
to_hex-NoLetterI [] h = tt
to_hex-NoLetterI (x ∷ b) (k, h) = (
  hex_digit-ne-i (x / 16) (omega arith),
  (hex_digit-ne-i (x % 16) (omega arith), to_hex-NoLetterI b h),
)

no_did_start : (s : Str) → NoLetterI s → starts_with s did_prefix ≡ false
unfolding starts_with
no_did_start [] h = refl
no_did_start (c ∷ []) h = ground arith
no_did_start (c ∷ d ∷ s) (p, (q, h)) = ground arith

remove_from-NoLetterI : (s : Str) → NoLetterI s → remove_from did_prefix 0 s ≡ s
unfolding remove_from
remove_from-NoLetterI [] h = refl
remove_from-NoLetterI (c ∷ s) (k, h) =
    rw (no_did_start (c ∷ s) (k, h)) (rw (remove_from-NoLetterI s h))

to_hex-ne-sandbox_key : (b : Bytes) → All (λ x. x < 256) b → to_hex b ≢ sandbox_key
unfolding to_hex hex_digit
to_hex-ne-sandbox_key [] h e = cc
to_hex-ne-sandbox_key (x ∷ b) (k, h) e = ground arith

without_did-to_hex : (b : Bytes) → All (λ x. x < 256) b → without_did (to_hex b) ≡ to_hex b
unfolding without_did
without_did-to_hex b h = rw (no_did_start (to_hex b) (to_hex-NoLetterI b h))

without_did-did_prefix :
    (b : Bytes) → All (λ x. x < 256) b → without_did (did_prefix ++ to_hex b) ≡ to_hex b
unfolding without_did remove_all starts_with remove_from
without_did-did_prefix b h = remove_from-NoLetterI (to_hex b) (to_hex-NoLetterI b h)

module _ (R : Runtime) where
  raw_key-to_hex : (b : Bytes) → Is32 b → raw_key R (to_hex b) ≡ some b
  unfolding raw_key
  raw_key-to_hex b h = rw (raw_of_hex b h)

  -- A private key of 32 bytes in hexadecimal is read as that key.
  pub parse_x25519_private_key-to_hex :
      (b : Bytes) → Is32 b → parse_x25519_private_key R (to_hex b) ≡ b
  parse_x25519_private_key-to_hex b h =
      unfold parse_x25519_private_key in
      rw (strip_solid (to_hex b) (to_hex-IsSolid b h.1), raw_key-to_hex b h)

  parse_x25519_public_key_of_hex :
      (s : Str) (b : Bytes) → Is32 b → without_did s ≡ to_hex b → parse_x25519_public_key R s ≡ b
  parse_x25519_public_key_of_hex s b h e =
      unfold parse_x25519_public_key in
      rw (e, strip_solid (to_hex b) (to_hex-IsSolid b h.1), raw_key-to_hex b h)
        (ground (arith, to_hex-ne-sandbox_key b h.1))

  -- A public key in hexadecimal is that key, alone or as the DID of a recipient.
  pub parse_x25519_public_key-to_hex :
      (b : Bytes) → Is32 b → parse_x25519_public_key R (to_hex b) ≡ b
  parse_x25519_public_key-to_hex b h =
      parse_x25519_public_key_of_hex (to_hex b) b h (without_did-to_hex b h.1)

  -- A public key of 32 bytes in hexadecimal behind the prefix of a DID is read as that key.
  pub parse_x25519_public_key-did :
      (b : Bytes) → Is32 b → parse_x25519_public_key R (did_prefix ++ to_hex b) ≡ b
  parse_x25519_public_key-did b h =
      parse_x25519_public_key_of_hex (did_prefix ++ to_hex b) b h (without_did-did_prefix b h.1)
