-- ===== src/Runtime.antt =====
-- What the program calls and does not implement: the packages `cryptography` and `hashlib`, and
-- the codecs of `json`, `base64`, `float` and UTF-8. Their documented behaviour is `IsLawful`.
use mx2_sandbox.Base.{ℕ, ◌<◌, ◌≡◌, Str, Bool, Option, some, List, All, length}
use mx2_sandbox.Json.{Json}
use mx2_sandbox.Mail.{Message}

-- a `bytes` value
abbrev pub Bytes : Type 0
Bytes = List ℕ

pub record Runtime : Type 0 where
  -- json.dumps, and json.loads with `none` for a `JSONDecodeError`
  pub dumps : Json → Str
  -- json.dumps with indent=2, and with sort_keys=True
  pub dumps_indent : Json → Str
  pub dumps_sorted : Json → Str
  pub loads : Str → Option Json
  -- email.message_from_string
  pub message_from_string : Str → Message
  -- str(v) of a value that is not a str, as an f-string formats it
  pub repr : Json → Str
  -- float(v), in ticks of the clock; `none` for a `ValueError` or a `TypeError`
  pub to_float : Json → Option ℕ
  -- s.encode(), b.decode() and b.decode(errors="ignore")
  pub encode : Str → Bytes
  pub decode : Bytes → Option Str
  pub decode_ignore : Bytes → Str
  pub b64encode : Bytes → Str
  pub b64decode : Str → Option Bytes
  -- hashlib.sha256(b).digest()
  pub sha256 : Bytes → Bytes
  -- X25519: the public key of a private key, and the exchange of a private and a public key,
  -- with `none` for its `ValueError`
  pub x25519_public : Bytes → Bytes
  pub x25519_exchange : Bytes → Bytes → Option Bytes
  -- Ed25519: the public key, the signature and its test
  pub ed25519_public : Bytes → Bytes
  pub ed25519_sign : Bytes → Bytes → Bytes
  pub ed25519_verify : Bytes → Bytes → Bytes → Bool
  -- serialization.load_der_public_key, for a key of either kind
  pub der_x25519 : Bytes → Option Bytes
  pub der_ed25519 : Bytes → Option Bytes
  -- HKDF(SHA256, 44, None, info).derive, AESGCM(key).encrypt(nonce, data, None) and decrypt
  pub hkdf : Bytes → Bytes → Bytes
  pub aes_encrypt : Bytes → Bytes → Bytes → Bytes
  pub aes_decrypt : Bytes → Bytes → Bytes → Option Bytes

-- The length and the range of a digest or a key.
abbrev pub Is32 : Bytes → Type 0
Is32 b = (length b ≡ 32) × All (λ x. x < 256) b

pub record IsLawful (R : Runtime) : Type 0 where
  pub loads-dumps : (v : Json) → R.loads (R.dumps v) ≡ some v
  pub loads-dumps_indent : (v : Json) → R.loads (R.dumps_indent v) ≡ some v
  pub decode-encode : (s : Str) → R.decode (R.encode s) ≡ some s
  pub decode_ignore-encode : (s : Str) → R.decode_ignore (R.encode s) ≡ s
  pub b64decode-b64encode : (b : Bytes) → R.b64decode (R.b64encode b) ≡ some b
  pub sha256-Is32 : (b : Bytes) → Is32 (R.sha256 b)
  pub public-Is32 : (k : Bytes) → Is32 (R.x25519_public k)
  -- both sides of an exchange have the same secret
  pub exchange_shared :
      (a b : Bytes)
      → (secret : Bytes) × (R.x25519_exchange a (R.x25519_public b) ≡ some secret)
        × (R.x25519_exchange b (R.x25519_public a) ≡ some secret)
  pub decrypt-encrypt :
      (key nonce plain : Bytes)
      → R.aes_decrypt key nonce (R.aes_encrypt key nonce plain) ≡ some plain
