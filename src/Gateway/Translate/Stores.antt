-- ===== src/Gateway/Translate/Stores.antt =====
-- `translate_smtp_to_mx2` of src/gateway.py and what the content store holds: its result does not
-- depend on it.
use mx2_sandbox.Base.{◌≡◌, ap, Str, Option, none, some, []}
use mx2_sandbox.Json.{Json}
use mx2_sandbox.Runtime.{Runtime}
use mx2_sandbox.Cas.{Store}
use mx2_sandbox.Gateway.Body.{Parts}
use mx2_sandbox.Gateway.Body.Stores.{process_message-without_store}
use mx2_sandbox.Gateway.Translate.{
  Fresh, inner_payload, outer_envelope, recipient_address, resolve_pubkey, translate_smtp_to_mx2,
}
use mx2_sandbox.Gateway.Hpke.{encrypt_payload}

module _ (R : Runtime) (fresh : Fresh) (raw key : Str) (features token : Json) where
  abbrev result_of : Parts → Option Str
  result_of parts =
      let msg = R.message_from_string raw in
      let recipient_addr = recipient_address msg raw in
      elim (encrypt_payload R fresh.ephemeral_private
        (R.dumps (inner_payload fresh msg raw features parts))
        (resolve_pubkey recipient_addr key)) [
          | none ↦ none
          | some sent ↦ some (R.dumps_indent (outer_envelope recipient_addr sent token))
        ]

  pub translate_result :
      (c : Store)
      → (translate_smtp_to_mx2 R fresh raw key features token c).0
        ≡ (translate_smtp_to_mx2 R fresh raw key features token []).0
  unfolding translate_smtp_to_mx2 inner_payload
  translate_result c =
      ap result_of (process_message-without_store R fresh.uuid (R.message_from_string raw) c)
