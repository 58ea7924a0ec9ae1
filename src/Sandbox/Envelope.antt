-- ===== src/Sandbox/Envelope.antt =====
-- Sections 1 to 4 of run_sandbox.py: negotiation, translation, decryption and a receipt.
pub mod Opened
use mx2_sandbox.Base.{ℕ, Str, str, Option, none, some, List, [], ◌∷◌, ◌++◌, map}
use mx2_sandbox.Base.Text.{strip}
use mx2_sandbox.Json.{Json, null, text, arr, obj, Items, nil, cons}
use mx2_sandbox.Runtime.{Runtime}
use mx2_sandbox.Cas.{Store}
use mx2_sandbox.AntiSpam.Vouch.{formatted}
use mx2_sandbox.Gateway.Hpke.{decrypt_payload}
use mx2_sandbox.Gateway.Negotiate.{Negotiated, negotiate_capabilities}
use mx2_sandbox.Gateway.Receipt.{generate_delivery_receipt}
use mx2_sandbox.Gateway.Translate.{Fresh, translate_smtp_to_mx2}
use mx2_sandbox.Server.{need_text, ◌>>=◌}
use mx2_sandbox.Ctl.Request.{member}
use mx2_sandbox.Sandbox.{Section, then_section, print_banner, text_list}

abbrev pub client_features : List Str
client_features = str "HPKE" ∷ str "Sealed-Sender" ∷ str "Trust-Routing" ∷ []

abbrev pub server_features : List Str
server_features =
    str "HPKE" ∷ str "Sealed-Sender" ∷ str "Trust-Routing" ∷ str "Delivery-Receipts" ∷ []

abbrev pub did_recipient : Str
did_recipient = str "did:mx2:MCowBQYDK2VwAyEAdS+7fGZ8A1839gBbcD81hS9bV2g327"

abbrev pub test_mime_content : Str
test_mime_content =
    str "From: did:mx2:senderPubKey12345"
    ++ (10 ∷ str "To: did:mx2:MCowBQYDK2VwAyEAdS+7fGZ8A1839gBbcD81hS9bV2g327"
        ++ (10 ∷ str "Subject: Decentralized Encrypted Chat"
            ++ (10 ∷ str "Content-Type: text/plain"
                ++ (10
                      ∷ 10
                      ∷ str
                          "Hello! This mail is routed directly via DIDs without DNSSEC requirements."
                    ++ 10 ∷ []))))

abbrev pub right_private_key : Str
right_private_key = str "mock-private-key-12345"

abbrev pub wrong_private_key : Str
wrong_private_key = str "wrong-private-key-99999"

abbrev pub features_shown : Runtime → List Str → Str
features_shown R features = R.repr (text_list features)

abbrev pub first_item : Json → Option Json
first_item (arr (cons v vs)) = some v
first_item _ = none

abbrev pub subject_of : Json → Option Json
subject_of v = member (str "content") v >>= member (str "subject")

abbrev pub body_of : Json → Option Str
body_of v =
    member (str "content") v
    >>= member (str "blocks")
    >>= first_item
    >>= member (str "body")
    >>= need_text

module _ (R : Runtime) where
  unfoldable pub negotiation_section : Section Negotiated
  negotiation_section =
      then_section
        (
          print_banner (str "1. Version & Capabilities Negotiation Handshake")
              ++ (str "Client: version 1.2.0 | features: " ++ features_shown R client_features)
                ∷ (str "Server: version 2.1.0 | features: " ++ features_shown R server_features)
                ∷ [],
          negotiate_capabilities (str "1.2.0") client_features (str "2.1.0") (some server_features),
        )
        (λ n. (
          (10 ∷ str "Negotiated result:")
              ∷ (str "-> Selected Version: " ++ n.protocol_version)
              ∷ (str "-> Enabled Features: " ++ features_shown R n.features)
              ∷ [],
          some n,
        ))

  abbrev pub loaded : Option Str → Option Json
  loaded none = none
  loaded (some s) = R.loads s

  -- `json.loads(BilingualGateway.decrypt_payload(…))` of an envelope
  unfoldable pub opened_with : Json → Str → Option Json
  opened_with envelope private_key = do
    encrypted ← member (str "encryptedPayload") envelope >>= need_text
    ephemeral ← member (str "ephemeralPublicKey") envelope >>= need_text
    plain ← decrypt_payload R encrypted ephemeral private_key
    R.loads plain

  unfoldable pub wrong_key_lines : Option Json → List Str
  wrong_key_lines none =
      str "[+] Decryption failed! (Access Denied - only recipient key holder can decrypt)." ∷ []
  wrong_key_lines (some v) =
      (str "[!] Decryption succeeded unexpectedly? Content: " ++ formatted R v) ∷ []

-- with the text of an exception
module _ (R : Runtime) (error_text : Str) where
  -- `f"[!] …: {err}"` and the exit, or the lines for the value
  abbrev pub or_exit : Str → (Json → List Str) → Option Json → Section Json
  or_exit line lines none = ((line ++ error_text) ∷ [], none)
  or_exit line lines (some v) = (lines v, some v)

  abbrev pub failed_line : Str
  failed_line = str "[!] Decryption failed: " ++ error_text

  abbrev pub with_body : Json → Option Str → Section Json
  with_body envelope none = (failed_line ∷ [], none)
  with_body envelope (some body) = ((str "    Body: " ++ strip body) ∷ [], some envelope)

  abbrev pub with_subject : Json → Json → Option Json → Section Json
  with_subject envelope v none = (failed_line ∷ [], none)
  with_subject envelope v (some subject) =
      let (lines, last) = with_body envelope (body_of v) in
      ((str "    Subject: " ++ formatted R subject) ∷ lines, last)

  unfoldable pub right_key_section : Json → Option Json → Section Json
  right_key_section envelope none = (failed_line ∷ [], none)
  right_key_section envelope (some v) =
      let (lines, last) = with_subject envelope v (subject_of v) in
      (str "[+] Decryption succeeded!" ∷ lines, last)

  unfoldable pub decryption_section : Json → Section Json
  unfolding opened_with wrong_key_lines right_key_section
  decryption_section envelope =
      then_section
        (
          print_banner (str "3. HPKE Message Decryption")
              ++ str "[*] Attempting decryption with incorrect private key..."
                ∷ (wrong_key_lines R (opened_with R envelope wrong_private_key)
                    ++ (10 ∷ str "[*] Attempting decryption with correct private key...") ∷ []),
          some envelope,
        )
        (λ e. right_key_section e (opened_with R e right_private_key))

  unfoldable pub translation_section : Fresh → Store → Negotiated → Section Json
  translation_section fresh store n =
      then_section
        (
          print_banner (str "2. E2EE translation using Decentralized Identifiers")
              ++ (str "Sending message to recipient DID: " ++ did_recipient) ∷ [],
          some n,
        )
        (λ n'.
          or_exit (str "[!] Error during DID translation: ")
            (λ envelope.
              (10 ∷ str "Serialized Envelope (recipient resolves via DID):")
              ∷ R.dumps_indent envelope
              ∷ [])
            (loaded R
              (translate_smtp_to_mx2 R fresh test_mime_content did_recipient (text_list n'.features)
                null store).0))

  unfoldable pub receipt_section : Str → Json → Section Json
  receipt_section timestamp envelope =
      then_section
        (
          print_banner (str "4. Cryptographic Delivery Receipts")
              ++ str "Generating non-repudiation receipt from recipient domain..." ∷ [],
          some envelope,
        )
        (λ e.
          or_exit (str "[!] Receipt generation failed: ")
            (λ receipt.
              (10 ∷ str "Verifiable Delivery Receipt JSON:") ∷ R.dumps_indent receipt ∷ [])
            (generate_delivery_receipt R e right_private_key timestamp))
