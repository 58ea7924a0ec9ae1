-- ===== src/Gateway/Hpke.antt =====
-- `encrypt_payload` and `decrypt_payload` of src/gateway.py.
pub mod Laws
use mx2_sandbox.Base.{
  ℕ, Str, str, Option, none, some, List, take, drop, length, ◌==◌, nat_eq, if◌then◌else◌,
}
use mx2_sandbox.Base.Text.{strip}
use mx2_sandbox.Base.Hex.{from_hex, to_hex}
use mx2_sandbox.Runtime.{Runtime, Bytes}
use mx2_sandbox.Gateway.Keys.{
  parse_x25519_private_key, parse_x25519_public_key, of_length_32, or_try,
}

infixl 5 ◌>>=◌
abbrev ◌>>=◌ : {A B : Type 0} → Option A → (A → Option B) → Option B
none >>= f = none
some a >>= f = f a

module _ (R : Runtime) where
  unfoldable pub hpke_info : Bytes
  hpke_info = R.encode (str "MX2-HPKE-AES-GCM")

  -- the 32 bytes of the AES key and the 12 of the nonce
  unfoldable pub derive : Bytes → Bytes × Bytes
  unfolding hpke_info
  derive shared_secret =
      let derived = R.hkdf hpke_info shared_secret in (take 32 derived, drop 32 derived)

  -- The ephemeral private key is what `X25519PrivateKey.generate` returned; `none` stands for the
  -- `ValueError` of an exchange.
  unfoldable pub encrypt_payload : Bytes → Str → Str → Option (Str × Str)
  unfolding derive
  encrypt_payload ephemeral_private plaintext public_key = do
    let recipient_pub = parse_x25519_public_key R public_key
    shared_secret ← R.x25519_exchange ephemeral_private recipient_pub
    let keys = derive shared_secret
    let ciphertext = R.aes_encrypt keys.0 keys.1 (R.encode plaintext)
    some (R.b64encode ciphertext, to_hex (R.x25519_public ephemeral_private))

  -- The ephemeral key from hex, else from base64; `from_public_bytes` takes 32 bytes only.
  unfoldable pub ephemeral_key : Str → Option Bytes
  unfolding nat_eq
  ephemeral_key s =
      or_try (of_length_32 (from_hex (strip s))) (of_length_32 (R.b64decode (strip s)))

  -- `none` stands for each of the exceptions that the steps raise.
  unfoldable pub decrypt_payload : Str → Str → Str → Option Str
  unfolding derive ephemeral_key
  decrypt_payload encrypted_b64 ephemeral_public private_key = do
    let recipient_priv = parse_x25519_private_key R private_key
    ephemeral_pub ← ephemeral_key ephemeral_public
    shared_secret ← R.x25519_exchange recipient_priv ephemeral_pub
    let keys = derive shared_secret
    ciphertext ← R.b64decode encrypted_b64
    plain ← R.aes_decrypt keys.0 keys.1 ciphertext
    R.decode plain
