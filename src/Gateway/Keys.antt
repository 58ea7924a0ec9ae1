-- ===== src/Gateway/Keys.antt =====
-- The four key parsers of src/gateway.py. A key object is its raw bytes.
pub mod Laws
use mx2_sandbox.Base.{
  ℕ, Str, str, Bool, true, false, Option, none, some, List, length, ◌==◌, nat_eq, list_eq,
  if◌then◌else◌,
}
use mx2_sandbox.Base.Text.{strip, starts_with, remove_all}
use mx2_sandbox.Base.Hex.{from_hex}
use mx2_sandbox.Runtime.{Runtime, Bytes}

-- the key that the sandbox uses for every party
abbrev pub sandbox_key : Str
sandbox_key = str "MCowBQYDK2VwAyEAdS+7fGZ8A1839gBbcD81hS9bV2g327"

abbrev pub mock_private_key : Str
mock_private_key = str "mock-private-key-12345"

abbrev pub did_prefix : Str
did_prefix = str "did:mx2:"

-- `raw` if it was read and has 32 bytes
abbrev pub of_length_32 : Option Bytes → Option Bytes
of_length_32 none = none
of_length_32 (some raw) = if length raw == 32 then some raw else none

-- the first of two attempts that gives a key
abbrev pub or_try : Option Bytes → Option Bytes → Option Bytes
or_try none b = b
or_try (some a) b = some a

abbrev pub or_digest : Option Bytes → Bytes → Bytes
or_digest none d = d
or_digest (some a) d = a

-- base64 of a DER key of the right kind
abbrev pub der_key : (Bytes → Option Bytes) → Option Bytes → Option Bytes
der_key load none = none
der_key load (some raw) = load raw

unfoldable pub without_did : Str → Str
without_did key_str =
    if starts_with key_str did_prefix then remove_all did_prefix key_str else key_str

module _ (R : Runtime) where
  -- hex, then base64, of 32 bytes
  unfoldable pub raw_key : Str → Option Bytes
  unfolding nat_eq
  raw_key s = or_try (of_length_32 (from_hex s)) (of_length_32 (R.b64decode s))

  -- the last resort of all four parsers
  unfoldable pub key_digest : Str → Bytes
  key_digest s = R.sha256 (R.encode s)

  -- `parse_x25519_private_key`
  unfoldable pub parse_x25519_private_key : Str → Bytes
  unfolding raw_key key_digest
  parse_x25519_private_key key_str = let s = strip key_str in or_digest (raw_key s) (key_digest s)

  -- `parse_ed25519_private_key`
  unfoldable pub parse_ed25519_private_key : Str → Bytes
  unfolding raw_key key_digest
  parse_ed25519_private_key key_str = let s = strip key_str in or_digest (raw_key s) (key_digest s)

  -- `parse_x25519_public_key`
  unfoldable pub parse_x25519_public_key : Str → Bytes
  unfolding list_eq nat_eq
  parse_x25519_public_key key_str =
      let s = strip (without_did key_str) in
      if s == sandbox_key
      then R.x25519_public (parse_x25519_private_key mock_private_key)
      else or_digest (or_try (raw_key s) (der_key R.der_x25519 (R.b64decode s))) (key_digest s)

  -- `parse_ed25519_public_key`
  unfoldable pub parse_ed25519_public_key : Str → Bytes
  unfolding list_eq nat_eq
  parse_ed25519_public_key key_str =
      let s = strip (without_did key_str) in
      if s == sandbox_key
      then R.ed25519_public (parse_ed25519_private_key sandbox_key)
      else or_digest (or_try (raw_key s) (der_key R.der_ed25519 (R.b64decode s))) (key_digest s)
