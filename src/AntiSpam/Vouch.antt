-- ===== src/AntiSpam/Vouch.antt =====
-- `verify_vouch_token` of src/anti_spam.py.
use mx2_sandbox.Base.{
  ℕ, Str, str, Bool, false, ◌||◌, Option, none, some, [], ◌++◌, ltb, take, ◌==◌, nat_eq, list_eq,
  if◌then◌else◌,
}
use mx2_sandbox.Json.{Json, text, obj, Fields, end, get_or}
use mx2_sandbox.Runtime.{Runtime, Bytes}
use mx2_sandbox.Gateway.Keys.{parse_ed25519_public_key}

-- the equality of a value and a text
abbrev pub is_text : Json → Str → Bool
is_text (text s) t = s == t
is_text _ t = false

module _ (R : Runtime) where
  -- a value inside an f-string
  abbrev pub formatted : Json → Str
  formatted (text s) = s
  formatted v = R.repr v

  -- `f"{voucher}_{vouched}_{expires_val}".encode()`
  unfoldable pub data_to_verify : Json → Json → Json → Bytes
  data_to_verify voucher vouched expires_val =
      R.encode (
        formatted voucher ++ (str "_" ++ (formatted vouched ++ (str "_" ++ formatted expires_val))))

  -- `base64.b64decode(signature)`; a signature that is no text raises
  abbrev pub signature_bytes : Json → Option Bytes
  signature_bytes (text s) = R.b64decode s
  signature_bytes _ = none

  -- the attempt at a real signature
  unfoldable pub verify_signature : Json → Json → Json → Json → Str → Bool
  verify_signature voucher vouched expires_val signature key = elim (signature_bytes signature) [
    | none ↦ false
    | some sig ↦
        R.ed25519_verify (parse_ed25519_public_key R key) sig
          (data_to_verify voucher vouched expires_val)
  ]

  -- `f"sig_{voucher}_{vouched}_{voucher_public_key[:6]}"`
  unfoldable pub expected_sig : Json → Json → Str → Str
  expected_sig voucher vouched key =
      str "sig_"
      ++ (formatted voucher ++ (str "_" ++ (formatted vouched ++ (str "_" ++ take 6 key))))

  unfoldable pub check_token : Fields → Str → ℕ → Bool
  check_token token key now =
      let vouched = get_or token (str "vouchedDomain") (text []) in
      let voucher = get_or token (str "voucherDomain") (text []) in
      let expires_val = get_or token (str "expires") (text (str "0")) in
      let signature = get_or token (str "signature") (text []) in
      elim (R.to_float expires_val) [
        | none ↦ false
        | some expires ↦
            if ltb expires now
            then false
            else verify_signature voucher vouched expires_val signature key
              || is_text signature (expected_sig voucher vouched key)
      ]

  -- `verify_vouch_token`. A token that is no dict raises an `AttributeError`, which is caught.
  unfoldable pub verify_vouch_token : Json → Str → ℕ → Bool
  verify_vouch_token (obj end) key now = false
  verify_vouch_token (obj token) key now = check_token token key now
  verify_vouch_token _ key now = false
