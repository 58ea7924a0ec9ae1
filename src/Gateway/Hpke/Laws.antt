-- ===== src/Gateway/Hpke/Laws.antt =====
-- `decrypt_payload` after `encrypt_payload`, src/gateway.py.
use mx2_sandbox.Base.{◌++◌, ◌≡◌, refl, Str, some}
use mx2_sandbox.Base.Text.Laws.{strip_solid}
use mx2_sandbox.Base.Hex.{to_hex, to_hex-IsSolid}
use mx2_sandbox.Runtime.{Runtime, IsLawful, Bytes, Is32}
use mx2_sandbox.Gateway.Keys.Laws.{
  raw_of_hex, parse_x25519_private_key-to_hex, parse_x25519_public_key-did,
}
use mx2_sandbox.Gateway.Keys.{parse_x25519_private_key, parse_x25519_public_key, did_prefix}
use mx2_sandbox.Gateway.Hpke.{encrypt_payload, decrypt_payload, ephemeral_key, derive}

module _ (R : Runtime) where
  ephemeral_key-to_hex : (b : Bytes) → Is32 b → ephemeral_key R (to_hex b) ≡ some b
  ephemeral_key-to_hex b h =
      unfold ephemeral_key in rw (strip_solid (to_hex b) (to_hex-IsSolid b h.1), raw_of_hex b h)

  -- Over a lawful runtime: for every ephemeral key the encryption succeeds, and a private key that
  -- belongs to the recipient's public key decrypts to the plaintext.
  pub decrypt_payload-encrypt_payload :
      IsLawful R
      → (ephemeral_private : Bytes) (plaintext public_key private_key : Str)
      → parse_x25519_public_key R public_key
        ≡ R.x25519_public (parse_x25519_private_key R private_key)
      → (sent : Str × Str) × (encrypt_payload R ephemeral_private plaintext public_key ≡ some sent)
        × (decrypt_payload R sent.0 sent.1 private_key ≡ some plaintext)
  unfolding encrypt_payload decrypt_payload
  decrypt_payload-encrypt_payload L e plaintext public_key private_key matching =
      let sk = parse_x25519_private_key R private_key in
      let (secret, ours, theirs) = L.exchange_shared e sk in
      let keys = derive R secret in
      (
        (
          R.b64encode (R.aes_encrypt keys.0 keys.1 (R.encode plaintext)),
          to_hex (R.x25519_public e),
        ),
        rw (matching, ours) refl,
        rw
            (
              ephemeral_key-to_hex (R.x25519_public e) (L.public-Is32 e),
              theirs,
              L.b64decode-b64encode,
              L.decrypt-encrypt,
              L.decode-encode,
            )
            refl,
      )

  -- Over a lawful runtime: the encryption to the DID of a key pair of 32 bytes succeeds, and its
  -- private key in hexadecimal decrypts to the plaintext.
  pub decrypt_payload_did :
      IsLawful R
      → (ephemeral_private : Bytes) (plaintext : Str) (key : Bytes) → Is32 key
      → (sent : Str × Str) × (encrypt_payload R ephemeral_private plaintext
            (did_prefix ++ to_hex (R.x25519_public key))
          ≡ some sent)
        × (decrypt_payload R sent.0 sent.1 (to_hex key) ≡ some plaintext)
  decrypt_payload_did L e plaintext key h =
      decrypt_payload-encrypt_payload L e plaintext (did_prefix ++ to_hex (R.x25519_public key))
        (to_hex key)
        (rw (
          parse_x25519_public_key-did R (R.x25519_public key) (L.public-Is32 key),
          parse_x25519_private_key-to_hex R key h,
        ))
