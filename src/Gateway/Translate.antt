-- ===== src/Gateway/Translate.antt =====
-- `translate_smtp_to_mx2` of src/gateway.py.
pub mod Laws
pub mod Stores
use mathlib.Core.Bool.{cond}
use mx2_sandbox.Base.{
  ℕ, Str, str, Bool, true, false, Option, none, some, List, [], ◌∷◌, ◌++◌, map, select, not, ◌==◌,
  nat_eq, list_eq, if◌then◌else◌,
}
use mx2_sandbox.Base.Text.{strip, split, first_of_split, starts_with, remove_all}
use mx2_sandbox.Json.{Json, text, arr, items, dict, truthy}
use mx2_sandbox.Mail.{Message}
use mx2_sandbox.Runtime.{Runtime, Bytes}
use mx2_sandbox.Cas.{Store}
use mx2_sandbox.Gateway.Keys.{sandbox_key, did_prefix}
use mx2_sandbox.Gateway.Header.{search_did, occurs}
use mx2_sandbox.Gateway.Hpke.{encrypt_payload}
use mx2_sandbox.Gateway.Body.{Parts, process_message}

-- what a call draws from the system: the ephemeral key, the id and the time of the message, and
-- the identifiers of `uuid.uuid4`
pub record Fresh : Type 0 where
  pub ephemeral_private : Bytes
  pub message_id : Str
  pub timestamp : Str
  pub uuid : ℕ → Str

-- a header's address, replaced by the DID that the raw text has in its line
unfoldable pub did_or : Str → Str → Str → Str
did_or address name raw =
    if occurs did_prefix raw
    then elim (search_did name raw) [ none ↦ address | some did ↦ strip did ]
    else address

unfoldable pub recipient_address : Message → Str → Str
recipient_address msg raw =
    did_or (strip (first_of_split (split b',' msg.to_header))) (str "to:") raw

unfoldable pub sender_address : Message → Str → Str
sender_address msg raw = did_or (strip msg.from_header) (str "from:") raw

-- the key that the payload is encrypted to
unfoldable pub resolve_pubkey : Str → Str → Str
resolve_pubkey recipient_addr recipient_public_key =
    if starts_with recipient_addr did_prefix
    then remove_all did_prefix recipient_addr
    else if recipient_public_key == []
    then sandbox_key
    else recipient_public_key

-- the addresses of one header, with the header's name in lower case
unfoldable pub addresses : Str → Str → List Json
addresses header kind =
    map (λ a. dict ((str "address", text a) ∷ (str "type", text kind) ∷ []))
      (select (λ a. not (a == [])) (map strip (split b',' header)))

unfoldable pub recipients_list : Message → List Json
recipients_list msg =
    addresses msg.to_header (str "to")
    ++ (addresses msg.cc_header (str "cc") ++ addresses msg.bcc_header (str "bcc"))

abbrev pub default_features : List Str
default_features = str "HPKE" ∷ str "Sealed-Sender" ∷ str "Web-of-Trust" ∷ []

-- `negotiated_features or [...]`
unfoldable pub features_or_default : Json → Json
features_or_default features =
    if truthy features then features else arr (items (map text default_features))

-- the private payload
unfoldable pub inner_payload : Fresh → Message → Str → Json → Parts → Json
inner_payload fresh msg raw features parts = dict (
    (
      str "meta",
      dict (
          (str "protocolVersion", text (str "2.0.0"))
          ∷ (str "messageId", text fresh.message_id)
          ∷ (str "timestamp", text fresh.timestamp)
          ∷ (str "negotiatedFeatures", features_or_default features)
          ∷ []),
    )
    ∷ (str "sender", text (sender_address msg raw))
    ∷ (str "senderSignature", text (str "unverified-legacy-smtp-sig"))
    ∷ (
      str "content",
      dict (
          (str "subject", text (strip msg.subject_header))
          ∷ (str "blocks", arr (items parts.blocks))
          ∷ []),
    )
    ∷ (str "attachments", arr (items parts.attachments))
    ∷ (str "recipients", arr (items (recipients_list msg)))
    ∷ [])

-- the sealed envelope; `vouching_token` is a JSON value, `null` for None
unfoldable pub outer_envelope : Str → Str × Str → Json → Json
outer_envelope recipient_addr (encrypted, ephemeral) vouching_token = dict (
    (str "recipient", text recipient_addr)
    ∷ (str "encryptedPayload", text encrypted)
    ∷ (str "ephemeralPublicKey", text ephemeral)
    ∷ (if truthy vouching_token then (str "vouchingToken", vouching_token) ∷ [] else []))

module _ (R : Runtime) where
  -- The JSON text of the envelope, or `none` for an exception, and the store with the attachments,
  -- which are written before the encryption.
  unfoldable pub translate_smtp_to_mx2 :
      Fresh → Str → Str → Json → Json → Store → Option Str × Store
  translate_smtp_to_mx2 fresh raw recipient_public_key features vouching_token store =
      let msg = R.message_from_string raw in
      let recipient_addr = recipient_address msg raw in
      let parts = process_message R fresh.uuid msg store in
      let inner = R.dumps (inner_payload fresh msg raw features parts) in
      let key = resolve_pubkey recipient_addr recipient_public_key in
      (
        elim (encrypt_payload R fresh.ephemeral_private inner key) [
          | none ↦ none
          | some sent ↦ some (R.dumps_indent (outer_envelope recipient_addr sent vouching_token))
        ],
        parts.store,
      )
