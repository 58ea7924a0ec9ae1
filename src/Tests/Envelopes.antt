-- ===== src/Tests/Envelopes.antt =====
-- Keys, envelopes and negotiation on small inputs.
use mx2_sandbox.Base.{◌≡◌, refl, Str, str, false, none, some, [], ◌∷◌, nat_eq, list_eq}
use mx2_sandbox.Base.Hex.{from_hex}
use mx2_sandbox.Base.Text.{split, strip, starts_with}
use mx2_sandbox.Json.{null}
use mx2_sandbox.Runtime.{Bytes}
use mx2_sandbox.Base.Dict.{lookup}
use mx2_sandbox.Cas.{read}
use mx2_sandbox.Cas.Laws.{IsSound}
use mx2_sandbox.Gateway.Keys.{
  without_did, did_prefix, mock_private_key, sandbox_key, parse_x25519_private_key,
  parse_x25519_public_key,
}
use mx2_sandbox.Gateway.Hpke.{decrypt_payload}
use mx2_sandbox.Gateway.Body.{process_message}
use mx2_sandbox.Gateway.Body.Laws.{IsValid, process_message-IsValid}
use mx2_sandbox.Gateway.Translate.{
  did_or, recipient_address, translate_smtp_to_mx2, outer_envelope, resolve_pubkey,
}
use mx2_sandbox.Gateway.Translate.Laws.{loads_some, recipient, inner, translate_decrypts}
use mx2_sandbox.Gateway.Negotiate.{
  version_parts, version_text, Negotiated, negotiate_capabilities, intersection,
}
use mx2_sandbox.Tests.Machine.{machine, machine-IsLawful, pad, plain_message}
use mx2_sandbox.Tests.Data.{fresh, raw_mail}
use mx2_sandbox.Base.Decimal.{decimal, int_of}
use mx2_sandbox.Gateway.Header.{occurs}

abbrev key : Bytes
key = pad 32 (str "secret")

sandbox_pair :
    parse_x25519_public_key machine
      (resolve_pubkey (recipient machine machine-IsLawful fresh raw_mail [] null null []) [])
    ≡ machine.x25519_public (parse_x25519_private_key machine mock_private_key)
unfolding pad parse_x25519_public_key parse_x25519_private_key strip from_hex without_did
    starts_with resolve_pubkey recipient_address did_or occurs split
sandbox_pair = refl

sandbox_key_pair :
    parse_x25519_public_key machine sandbox_key
    ≡ machine.x25519_public (parse_x25519_private_key machine mock_private_key)
unfolding parse_x25519_public_key pad strip parse_x25519_private_key without_did from_hex
    starts_with
sandbox_key_pair = refl

translate_decrypts_example :
    (sent : Str × Str) × (loads_some machine
        (translate_smtp_to_mx2 machine fresh raw_mail [] null null []).0
      ≡ some (
          outer_envelope
            (recipient machine machine-IsLawful fresh raw_mail [] null null [])
            sent
            null))
    × (loads_some machine (decrypt_payload machine sent.0 sent.1 mock_private_key)
        ≡ some (inner machine machine-IsLawful fresh raw_mail [] null null []))
translate_decrypts_example =
    translate_decrypts machine machine-IsLawful fresh raw_mail [] null null [] mock_private_key
      sandbox_pair

ordinary_recipient :
    starts_with (recipient machine machine-IsLawful fresh raw_mail [] null null []) did_prefix
    ≡ false
unfolding starts_with recipient_address did_or occurs strip split
ordinary_recipient = refl

no_files-IsSound : IsSound machine []
unfolding read lookup
no_files-IsSound hash b found = cc

process_message-IsValid_example :
    IsValid machine fresh.uuid (process_message machine fresh.uuid (plain_message raw_mail) [])
process_message-IsValid_example =
    process_message-IsValid machine fresh.uuid (plain_message raw_mail) [] no_files-IsSound

abbrev agreed : Negotiated
agreed = record { protocol_version = str "1.0.0"; features = str "HPKE" ∷ [] }

agreed_lem :
    negotiate_capabilities (str "1.4.2") (str "HPKE" ∷ str "HPKE" ∷ []) (str "2.0.0") none
    ≡ some agreed
unfolding negotiate_capabilities version_parts split int_of strip version_text intersection decimal
    list_eq
agreed_lem = refl
