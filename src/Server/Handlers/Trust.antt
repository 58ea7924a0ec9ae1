-- ===== src/Server/Handlers/Trust.antt =====
-- `_handle_vouch_verify`, `_handle_trust_evaluate` and `_handle_pow_verify` of src/web_server.py.
-- None of them changes the daemon.
use mx2_sandbox.Base.{
  ℕ, Str, str, Bool, true, false, not, ◌||◌, Option, none, some, [], ◌∷◌, ◌++◌, ◌==◌, nat_eq,
  list_eq, if◌then◌else◌,
}
use mx2_sandbox.Base.Decimal.{int_of}
use mx2_sandbox.Json.{Json, null, bool, num, text, obj, Fields, end, dict, get_or, truthy}
use mx2_sandbox.Runtime.{Runtime}
use mx2_sandbox.AntiSpam.{Engine}
use mx2_sandbox.AntiSpam.Vouch.{verify_vouch_token}
use mx2_sandbox.AntiSpam.Grade.{
  Trust, Sender, Destination, inbox, junk, quarantine, evaluate_trust_grade,
}
use mx2_sandbox.AntiSpam.Pow.{verify_proof_of_work}
use mx2_sandbox.Server.{
  Call, Response, send_json, send_error, need_text, key_text, read_payload, ◌>>=◌,
}
use mx2_sandbox.Server.Translate.{grade_text}

abbrev pub destination_name : Destination → Str
destination_name inbox = str "Inbox"
destination_name junk = str "Junk"
destination_name quarantine = str "Quarantine"

-- the dict that `evaluate_trust_grade` returns
abbrev pub trust_json : Trust → Json
trust_json t = dict (
    (str "grade", text (grade_text t.grade))
    ∷ (str "destination", text (destination_name t.destination))
    ∷ (str "reason", text t.reason)
    ∷ [])

-- `int(v)`, with `none` for a `ValueError` or a `TypeError`
unfoldable pub int_value : Json → Option ℕ
int_value (num n) = some n
int_value (bool b) = some (if b then 1 else 0)
int_value (text s) = int_of s
int_value _ = none

module _ (R : Runtime) (call : Call) where
  -- `str(v)`
  abbrev pub str_value : Json → Str
  str_value (text s) = s
  str_value v = R.repr v

  abbrev pub token_valid : Json → Json → Bool
  token_valid token (text key) = verify_vouch_token R token key call.now
  token_valid token _ = false

  -- `_handle_vouch_verify`
  unfoldable pub handle_vouch_verify : Option Str → Response
  handle_vouch_verify body = elim (read_payload R body) [
    | none ↦
        send_error (str "ERR_VOUCH_VERIFICATION_FAILED")
          (str "Fout bij valideren van vouching token: " ++ call.error_text) (str "security") 500
          call
    | some payload ↦
        let token = get_or payload (str "vouchingToken") (obj end) in
        let pubkey =
          get_or payload (str "publicKey")
            (text (str "MCowBQYDK2VwAyEAdS+7fGZ8A1839gBbcD81hS9bV2g327")) in
        send_json
          (dict ((str "success", bool true) ∷ (str "valid", bool (token_valid token pubkey)) ∷ []))
          200
  ]

  unfoldable pub read_sender : Fields → Option Sender
  read_sender payload = do
    sender ← need_text (get_or payload (str "sender") (text []))
    sender_domain ← need_text (get_or payload (str "senderDomain") (text []))
    recipient ← need_text (get_or payload (str "recipient") (text (str "bob@example.com")))
    some (record {
      sender = sender;
      sender_domain = sender_domain;
      recipient = recipient;
      vouch_token = get_or payload (str "vouchingToken") null;
      voucher_pubkey = key_text (get_or payload (str "voucherPublicKey") (text []));
      signature_valid = truthy (get_or payload (str "signatureValid") (bool true));
    })

  -- `_handle_trust_evaluate`
  unfoldable pub handle_trust_evaluate : Option Str → Engine → Response
  handle_trust_evaluate body e =
      elim (read_payload R body >>= read_sender >>= λ s. evaluate_trust_grade R e s call.now) [
        | none ↦
            send_error (str "ERR_TRUST_EVALUATION_FAILED")
              (str "Fout bij berekenen van trust grade: " ++ call.error_text) (str "server") 500
              call
        | some trust ↦
            send_json
              (dict ((str "success", bool true) ∷ (str "trustResult", trust_json trust) ∷ [])) 200
      ]

  unfoldable pub pow_reply : Json → Str → ℕ → Response
  pow_reply challenge nonce bits =
      if not (truthy challenge) || nonce == []
      then send_error (str "ERR_POW_MISSING_PARAMETERS")
          (str "Kan Proof-of-Work niet verifi"
            ++ (235 ∷ str "ren: 'challenge' of 'nonce' ontbreekt."))
          (str "validation") 400 call
      else send_json
          (dict (
            (str "success", bool true)
            ∷ (str "valid", bool (verify_proof_of_work R (str_value challenge) nonce bits))
            ∷ (str "challenge", challenge)
            ∷ (str "nonce", text nonce)
            ∷ (str "difficultyBits", num bits)
            ∷ []))
          200

  -- `_handle_pow_verify`
  unfoldable pub handle_pow_verify : Option Str → Response
  handle_pow_verify body =
      elim (read_payload R body >>= λ payload.
      int_value (get_or payload (str "difficultyBits") (num 10)) >>= λ bits. some (
        pow_reply (get_or payload (str "challenge") (text []))
          (str_value (get_or payload (str "nonce") (text []))) bits)) [
            | none ↦
                send_error (str "ERR_POW_VERIFICATION_FAILED")
                  (str "Proof-of-Work verificatie mislukt: " ++ call.error_text) (str "server") 500
                  call
            | some reply ↦ reply
          ]
