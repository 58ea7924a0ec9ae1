-- ===== src/Sandbox/Envelope/Opened.antt =====
-- Sections 2 and 3 of run_sandbox.py together: the envelope, and what its keys open.
use mx2_sandbox.Base.{◌≡◌, ◌∙◌, refl, Str, str, Option, none, some, list_eq, nat_eq}
use mx2_sandbox.Base.Text.{starts_with, strip, remove_all}
use mx2_sandbox.Json.{Json, null, get_field}
use mx2_sandbox.Runtime.{Runtime, IsLawful}
use mx2_sandbox.Cas.{Store}
use mx2_sandbox.Gateway.Header.{occurs, search_did}
use mx2_sandbox.Gateway.Keys.{parse_x25519_private_key, parse_x25519_public_key, sandbox_key}
use mx2_sandbox.Gateway.Hpke.{decrypt_payload}
use mx2_sandbox.Gateway.Negotiate.{Negotiated}
use mx2_sandbox.Gateway.Translate.{Fresh, did_or, recipient_address, resolve_pubkey, outer_envelope}
use mx2_sandbox.Gateway.Translate.Laws.{loads_some, inner, translate_decrypts, parse_sandbox_key}
use mx2_sandbox.Server.{need_text, ◌>>=◌}
use mx2_sandbox.Ctl.Request.{member}
use mx2_sandbox.Sandbox.{text_list}
use mx2_sandbox.Sandbox.Envelope.{
  did_recipient, test_mime_content, right_private_key, opened_with, translation_section,
}

resolve_did_recipient : (key : Str) → resolve_pubkey did_recipient key ≡ sandbox_key
unfolding resolve_pubkey starts_with remove_all
resolve_did_recipient key = refl

-- the texts of an envelope
envelope_texts :
    (recipient : Str) (sent : Str × Str) (token : Json)
    → ((member (str "encryptedPayload") (outer_envelope recipient sent token) >>= need_text)
        ≡ some sent.0)
      × ((member (str "ephemeralPublicKey") (outer_envelope recipient sent token) >>= need_text)
          ≡ some sent.1)
unfolding outer_envelope get_field list_eq nat_eq
envelope_texts recipient sent token = (refl, refl)

module _ (R : Runtime) (L : IsLawful R) where
  loads_chain : (o : Option Str) → (o >>= λ plain. R.loads plain) ≡ loads_some R o
  loads_chain none = refl
  loads_chain (some s) = refl

  opened_with_lem :
      (recipient key : Str) (sent : Str × Str) (token : Json)
      → opened_with R (outer_envelope recipient sent token) key
        ≡ loads_some R (decrypt_payload R sent.0 sent.1 key)
  unfolding opened_with
  opened_with_lem recipient key sent token =
      let (a, b) = envelope_texts recipient sent token in
      rw (opened_with, a, b) (loads_chain (decrypt_payload R sent.0 sent.1 key))

  -- the recipient is the DID in the text, whatever the parser makes of it
  demo_recipient :
      recipient_address (R.message_from_string test_mime_content) test_mime_content ≡ did_recipient
  unfolding recipient_address did_or occurs search_did strip
  demo_recipient = refl

  demo_key :
      (key : Str)
      → parse_x25519_public_key R (
          resolve_pubkey
            (recipient_address (R.message_from_string test_mime_content) test_mime_content)
            key)
        ≡ R.x25519_public (parse_x25519_private_key R right_private_key)
  demo_key key = rw (demo_recipient, resolve_did_recipient key) (parse_sandbox_key R)

  -- The demonstration, over a lawful runtime: the translation of section 2 goes on with an
  -- envelope, from which the right key of section 3 opens the private payload of that message,
  -- whatever features were negotiated.
  demo_envelope_opens :
      (error_text : Str) (fresh : Fresh) (store : Store) (n : Negotiated)
      → (envelope : Json) × ((translation_section R error_text fresh store n).1 ≡ some envelope)
        × (opened_with R envelope right_private_key
            ≡ some
                (inner R L fresh test_mime_content did_recipient (text_list n.features) null store))
  unfolding translation_section
  demo_envelope_opens error_text fresh store n =
      let (sent, made, opened) =
        translate_decrypts R L fresh test_mime_content did_recipient (text_list n.features) null
          store right_private_key (demo_key did_recipient) in
      (
        outer_envelope
            (recipient_address (R.message_from_string test_mime_content) test_mime_content) sent
            null,
        rw (translation_section, made) refl,
        opened_with_lem _ right_private_key sent null ∙ opened,
      )
