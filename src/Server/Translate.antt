-- ===== src/Server/Translate.antt =====
-- `_handle_translate` of src/web_server.py.
pub mod Limit
pub mod Growth
pub mod Outcome
pub mod Replies
use mx2_sandbox.Base.{
  ℕ, Str, str, Bool, true, false, Option, none, some, List, [], ◌∷◌, ◌++◌, take, leb, ◌==◌, nat_eq,
  list_eq, if◌then◌else◌,
}
use mx2_sandbox.Base.Text.{lower, strip, starts_with, split_once, splitlines}
use mx2_sandbox.Json.{Json, null, bool, text, Fields, dict, get_or, truthy}
use mx2_sandbox.Runtime.{Runtime}
use mx2_sandbox.Cas.{Store}
use mx2_sandbox.Storage.{address_domain}
use mx2_sandbox.AntiSpam.{Engine}
use mx2_sandbox.AntiSpam.Quota.{get_hourly_count, record_message}
use mx2_sandbox.AntiSpam.Queue.{quarantine_message}
use mx2_sandbox.AntiSpam.Grade.{
  Grade, grade_a, grade_b, grade_c, grade_d, grade_e, Destination, inbox, junk, quarantine, Trust,
  Sender, evaluate_trust_grade,
}
use mx2_sandbox.Gateway.Keys.{did_prefix}
use mx2_sandbox.Gateway.Translate.{translate_smtp_to_mx2, recipient_address}
use mx2_sandbox.Server.Submission.{Submission, read_submission, route_of, sender_of, find_subject}
use mx2_sandbox.Server.{
  Daemon, Call, Response, send_json, send_error, need_text, text_or_empty, key_text, as_dict,
  then_dict, read_payload, ◌>>=◌, or_else,
}

abbrev pub grade_text : Grade → Str
grade_text grade_a = str "A"
grade_text grade_b = str "B"
grade_text grade_c = str "C"
grade_text grade_d = str "D"
grade_text grade_e = str "E"

-- `destination.upper()`
abbrev pub destination_text : Destination → Str
destination_text inbox = str "INBOX"
destination_text junk = str "JUNK"
destination_text quarantine = str "QUARANTINE"

unfoldable pub translation_failed : Call → Response
translation_failed call =
    send_error (str "ERR_TRANSLATION_FAILED")
      (str "De Bilingual Gateway kon het e-mailbericht niet vertalen naar MX2: " ++ call.error_text)
      (str "server") 500 call

unfoldable pub empty_payload : Call → Response
empty_payload call =
    send_error (str "ERR_EMPTY_PAYLOAD")
      (str "De e-mailinhoud is leeg of kon niet correct worden gelezen. Controleer je SMTP-invoer.")
      (str "validation") 400 call

unfoldable pub rate_limited : Str → Call → Response
rate_limited sender_domain call =
    send_error (str "ERR_RATE_LIMIT_EXCEEDED")
      (str "Transmissie geweigerd: het verzendquota voor '"
        ++ (sender_domain ++ str "' is overschreden."))
      (str "security") 429 call

unfoldable pub quarantined : Trust → Str → Json → Response
quarantined trust msg_id translated =
    send_json
      (dict (
        (str "success", bool true)
        ∷ (str "status", text (str "QUARANTINE"))
        ∷ (str "grade", text (grade_text trust.grade))
        ∷ (str "reason", text trust.reason)
        ∷ (str "messageId", text msg_id)
        ∷ (str "payload", translated)
        ∷ []))
      200

unfoldable pub delivered : Trust → Json → Response
delivered trust translated =
    send_json
      (dict (
        (str "success", bool true)
        ∷ (str "status", text (destination_text trust.destination))
        ∷ (str "grade", text (grade_text trust.grade))
        ∷ (str "reason", text trust.reason)
        ∷ (str "payload", translated)
        ∷ []))
      200

module _ (R : Runtime) (call : Call) where
  unfoldable pub translate_with : Submission → Str → Store → Option Str × Store
  translate_with s key store =
      translate_smtp_to_mx2 R call.fresh s.raw_smtp key s.features s.vouch_token store

  -- The translation of a submission. A key that is no text raises where it is used, behind the
  -- attachments; it is not used for a recipient that is a DID.
  unfoldable pub translate_submission : Submission → Store → Option Str × Store
  unfolding translate_with
  translate_submission s store =
      let recipient = recipient_address (R.message_from_string s.raw_smtp) s.raw_smtp in
      elim s.pubkey [
        | some key ↦ translate_with s key store
        | none ↦
            if starts_with recipient did_prefix
            then translate_with s [] store
            else (none, (translate_with s [] store).1)
      ]

  -- The translated envelope, if the translation and `json.loads` raise nothing.
  abbrev pub load_translated : Option Str → Option Json
  load_translated none = none
  load_translated (some s) = R.loads s

  -- `translated_dict.get("encryptedPayload", "")[:12]`
  abbrev pub message_id_of : Json → Option Str
  message_id_of translated = do
    fs ← as_dict translated
    payload ← need_text (get_or fs (str "encryptedPayload") (text []))
    some (take 12 payload)

  -- The sending is recorded; a message for quarantine goes to the holding queue.
  unfoldable pub finish : Submission → Trust → Json → Daemon → Response × Daemon
  finish s trust translated d =
      let route = route_of s.raw_smtp in
      let sent = record_message route.sender_domain route.recipient_domain call.now d.anti_spam in
      let d' = record d { anti_spam = sent } in
      elim trust.destination [
        | quarantine ↦ elim (message_id_of translated) [
          | none ↦ (translation_failed call, d')
          | some msg_id ↦ (
            quarantined trust msg_id translated,
            record d {
              anti_spam =
                  quarantine_message R msg_id route.sender_addr
                    (find_subject (splitlines s.raw_smtp) (str "Unknown Subject")) translated
                    call.now sent;
            },
          )
        ]
        | _ ↦ (delivered trust translated, d')
      ]

  -- the translation, which may write attachments before it raises
  unfoldable pub translate_and_finish : Submission → Trust → Daemon → Response × Daemon
  translate_and_finish s trust d =
      let (result, store) = translate_submission s d.cas in
      let d' = record d { cas = store } in
      elim (load_translated result) [
        | none ↦ (translation_failed call, d')
        | some translated ↦ finish s trust translated d'
      ]

  -- the quota, for a sender that was evaluated
  unfoldable pub check_quota : Submission → Trust → Daemon → Response × Daemon
  check_quota s trust d =
      let route = route_of s.raw_smtp in
      let (count, engine) =
        get_hourly_count route.sender_domain route.recipient_domain call.now d.anti_spam in
      let d' = record d { anti_spam = engine } in
      if leb engine.quota_limit count
      then (rate_limited route.sender_domain call, d')
      else translate_and_finish s trust d'

  unfoldable pub submit : Submission → Daemon → Response × Daemon
  submit s d =
      if s.raw_smtp == []
      then (empty_payload call, d)
      else elim (evaluate_trust_grade R d.anti_spam (sender_of s) call.now) [
        | none ↦ (translation_failed call, d)
        | some trust ↦ check_quota s trust d
      ]

  -- `_handle_translate`
  unfoldable pub handle_translate : Option Str → Daemon → Response × Daemon
  handle_translate body d = elim (read_payload R body >>= read_submission) [
    | none ↦ (translation_failed call, d)
    | some s ↦ submit s d
  ]
