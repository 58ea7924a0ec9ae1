-- ===== src/Server/Handlers/Crypto.antt =====
-- `_handle_decrypt`, `_handle_receipt_generate` and `_handle_negotiate` of src/web_server.py. None
-- of them changes the daemon.
use mx2_sandbox.Base.{
  Str, str, true, ◌&&◌, Option, none, some, List, [], ◌∷◌, ◌++◌, map, if◌then◌else◌,
}
use mx2_sandbox.Json.{
  Json, bool, text, arr, obj, Items, nil, cons, Fields, end, field, items, dict, get_or, truthy,
}
use mx2_sandbox.Runtime.{Runtime}
use mx2_sandbox.Gateway.Hpke.{decrypt_payload}
use mx2_sandbox.Gateway.Receipt.{generate_delivery_receipt}
use mx2_sandbox.Gateway.Negotiate.{Negotiated, negotiate_capabilities}
use mx2_sandbox.Server.{Call, Response, send_json, send_error, need_text, read_payload, ◌>>=◌}

abbrev default_private_key : Json
default_private_key = text (str "mock-private-key-12345")

-- `set(v)` as far as it holds texts, with `none` for a `TypeError`
unfoldable pub text_items : Items → Option (List Str)
text_items nil = some []
text_items (cons (text s) rest) = elim (text_items rest) [ none ↦ none | some ss ↦ some (s ∷ ss) ]
text_items (cons (arr vs) rest) = none
text_items (cons (obj fs) rest) = none
text_items (cons v rest) = text_items rest

abbrev pub key_list : Fields → List Str
key_list end = []
key_list (field k v rest) = k ∷ key_list rest

unfoldable pub feature_set : Json → Option (List Str)
unfolding text_items
feature_set (arr vs) = text_items vs
feature_set (text s) = some (map (λ c. c ∷ []) s)
feature_set (obj fs) = some (key_list fs)
feature_set _ = none

abbrev pub negotiated_json : Negotiated → Json
negotiated_json n = dict (
    (str "protocolVersion", text n.protocol_version)
    ∷ (str "features", arr (items (map text n.features)))
    ∷ [])

module _ (R : Runtime) (call : Call) where
  unfoldable pub decrypted : Fields → Option Json
  decrypted payload = do
    encrypted_b64 ← need_text (get_or payload (str "encryptedPayload") (text []))
    ephemeral_public ← need_text (get_or payload (str "ephemeralPublicKey") (text []))
    private_key ← need_text (get_or payload (str "privateKey") default_private_key)
    plain ← decrypt_payload R encrypted_b64 ephemeral_public private_key
    R.loads plain

  unfoldable pub decryption_failed : Response
  decryption_failed =
      send_error (str "ERR_DECRYPTION_FAILED")
        (str
          "Decryptie mislukt. De afgeleide sessiesleutel komt niet overeen met de envelop-sleutel.")
        (str "security") 403 call

  unfoldable pub decrypt_reply : Fields → Response
  decrypt_reply payload =
      if truthy (get_or payload (str "encryptedPayload") (text []))
        && truthy (get_or payload (str "ephemeralPublicKey") (text []))
      then elim (decrypted payload) [
        | none ↦ decryption_failed
        | some v ↦ send_json (dict ((str "success", bool true) ∷ (str "payload", v) ∷ [])) 200
      ]
      else send_error (str "ERR_DECRYPTION_PARAMETERS_MISSING")
          (str "Kan bericht niet ontsleutelen: ontbrekende E2EE parameters in envelop.")
          (str "security") 400 call

  -- `_handle_decrypt`
  unfoldable pub handle_decrypt : Option Str → Response
  handle_decrypt body = elim (read_payload R body) [
    | none ↦ decryption_failed
    | some payload ↦ decrypt_reply payload
  ]

  unfoldable pub receipt_failed : Response
  receipt_failed =
      send_error (str "ERR_RECEIPT_GENERATION_FAILED")
        (str "Fout bij het genereren van het ontvangstbewijs: " ++ call.error_text) (str "server")
        500 call

  unfoldable pub receipt_of : Fields → Option Json
  receipt_of payload = do
    private_key ← need_text (get_or payload (str "privateKey") default_private_key)
    generate_delivery_receipt R (get_or payload (str "envelope") (obj end)) private_key
        call.timestamp

  unfoldable pub receipt_reply : Fields → Response
  receipt_reply payload =
      if truthy (get_or payload (str "envelope") (obj end))
      then elim (receipt_of payload) [
        | none ↦ receipt_failed
        | some v ↦ send_json (dict ((str "success", bool true) ∷ (str "receipt", v) ∷ [])) 200
      ]
      else send_error (str "ERR_RECEIPT_MISSING_ENVELOPE")
          (str "Geen e-mailenvelop ontvangen om een afleverbewijs voor te genereren.")
          (str "validation") 400 call

  -- `_handle_receipt_generate`
  unfoldable pub handle_receipt_generate : Option Str → Response
  handle_receipt_generate body = elim (read_payload R body) [
    | none ↦ receipt_failed
    | some payload ↦ receipt_reply payload
  ]

  unfoldable pub negotiated_of : Fields → Option Negotiated
  negotiated_of payload = do
    client_ver ← need_text (get_or payload (str "clientVersion") (text (str "1.0.0")))
    client_feats ← feature_set (get_or payload (str "clientFeatures") (arr nil))
    server_ver ← need_text (get_or payload (str "serverVersion") (text (str "2.0.0")))
    negotiate_capabilities client_ver client_feats server_ver none

  -- `_handle_negotiate`
  unfoldable pub handle_negotiate : Option Str → Response
  handle_negotiate body = elim (read_payload R body >>= negotiated_of) [
    | none ↦
        send_error (str "ERR_NEGOTIATION_FAILED")
          (str "Sleutel/functie-onderhandeling tussen client en server is mislukt: "
            ++ call.error_text)
          (str "routing") 500 call
    | some n ↦
        send_json (dict ((str "success", bool true) ∷ (str "negotiated", negotiated_json n) ∷ []))
          200
  ]
