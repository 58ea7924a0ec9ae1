-- ===== src/Gateway/Translate/Laws.antt =====
-- `decrypt_payload` after `translate_smtp_to_mx2`, src/gateway.py.
use mx2_sandbox.Base.{
  ◌≡◌, refl, ◌∙◌, ap, Str, false, Option, none, some, [], arith, nat_eq, list_eq,
}
use mx2_sandbox.Base.Text.{strip, starts_with}
use mx2_sandbox.Json.{Json}
use mx2_sandbox.Runtime.{Runtime, IsLawful}
use mx2_sandbox.Cas.{Store}
use mx2_sandbox.Gateway.Keys.{
  parse_x25519_private_key, parse_x25519_public_key, sandbox_key, mock_private_key, did_prefix,
  without_did,
}
use mx2_sandbox.Gateway.Hpke.{encrypt_payload, decrypt_payload}
use mx2_sandbox.Gateway.Hpke.Laws.{decrypt_payload-encrypt_payload}
use mx2_sandbox.Gateway.Body.{process_message}
use mx2_sandbox.Gateway.Translate.{
  Fresh, translate_smtp_to_mx2, recipient_address, resolve_pubkey, inner_payload, outer_envelope,
}

-- `json.loads` of a text that may be missing
abbrev pub loads_some : Runtime → Option Str → Option Json
loads_some R none = none
loads_some R (some s) = R.loads s

resolve_default :
    (recipient key : Str)
    → starts_with recipient did_prefix ≡ false
    → key ≡ []
    → resolve_pubkey recipient key ≡ sandbox_key
unfolding resolve_pubkey
resolve_default recipient key ordinary no_key = ground arith

without_did-sandbox_key : strip (without_did sandbox_key) ≡ sandbox_key
unfolding without_did strip starts_with
without_did-sandbox_key = refl

parse_sandbox_key_of :
    (R : Runtime) (s : Str)
    → strip (without_did s) ≡ sandbox_key
    → parse_x25519_public_key R s ≡ R.x25519_public (parse_x25519_private_key R mock_private_key)
unfolding parse_x25519_public_key
parse_sandbox_key_of R s e = rw e (ground arith)

pub parse_sandbox_key :
    (R : Runtime)
    → parse_x25519_public_key R sandbox_key
      ≡ R.x25519_public (parse_x25519_private_key R mock_private_key)
parse_sandbox_key R = parse_sandbox_key_of R sandbox_key without_did-sandbox_key

module _ (R : Runtime) (L : IsLawful R) (fresh : Fresh) (raw key : Str) (features token : Json)
    (store : Store) where
  abbrev pub recipient : Str
  recipient = recipient_address (R.message_from_string raw) raw

  abbrev pub inner : Json
  inner =
      inner_payload fresh (R.message_from_string raw) raw features
        (process_message R fresh.uuid (R.message_from_string raw) store)

  translate_sealed :
      (sent : Str × Str)
      → encrypt_payload R fresh.ephemeral_private (R.dumps inner) (resolve_pubkey recipient key)
        ≡ some sent
      → (translate_smtp_to_mx2 R fresh raw key features token store).0
        ≡ some (R.dumps_indent (outer_envelope recipient sent token))
  unfolding translate_smtp_to_mx2
  translate_sealed sent sealed = ground arith

  -- Over a lawful runtime: if the key that the message is encrypted to belongs to a private key,
  -- the translation succeeds with an envelope from which that private key decrypts the private
  -- payload.
  pub translate_decrypts :
      (private_key : Str)
      → parse_x25519_public_key R (resolve_pubkey recipient key)
        ≡ R.x25519_public (parse_x25519_private_key R private_key)
      → (sent : Str × Str) × (loads_some R
            (translate_smtp_to_mx2 R fresh raw key features token store).0
          ≡ some (outer_envelope recipient sent token))
        × (loads_some R (decrypt_payload R sent.0 sent.1 private_key) ≡ some inner)
  translate_decrypts private_key matching =
      let (sent, sealed, opened) =
        decrypt_payload-encrypt_payload R L fresh.ephemeral_private (R.dumps inner)
          (resolve_pubkey recipient key) private_key matching in
      (
        sent,
        rw (translate_sealed sent sealed) (L.loads-dumps_indent _),
        rw opened (L.loads-dumps _),
      )

  -- Over a lawful runtime: the translation without a key of a message to an address that is no DID
  -- succeeds with an envelope from which the mock private key of the sandbox decrypts the private
  -- payload.
  translate_default_key :
      starts_with recipient did_prefix ≡ false
      → key ≡ []
      → (sent : Str × Str) × (loads_some R
            (translate_smtp_to_mx2 R fresh raw key features token store).0
          ≡ some (outer_envelope recipient sent token))
        × (loads_some R (decrypt_payload R sent.0 sent.1 mock_private_key) ≡ some inner)
  translate_default_key ordinary no_key = translate_decrypts mock_private_key (
      ap (parse_x25519_public_key R) (resolve_default recipient key ordinary no_key)
      ∙ parse_sandbox_key R)
