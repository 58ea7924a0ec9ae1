-- ===== src/Ctl/Mail/Spoofed.antt =====
-- `mx2ctl test --spoof` together with the quarantine of src/web_server.py, and the approval behind it.
use mx2_sandbox.Base.{
  ◌<◌, ◌≡◌, ◌≢◌, refl, Str, str, Bool, true, not, ◌||◌, some, List, [], ◌∷◌, ◌++◌, arith, ◌==◌,
  nat_eq, list_eq,
}
use mx2_sandbox.Base.Text.{strip, is_space}
use mx2_sandbox.Base.Text.Laws.{strip-ne-nil}
use mx2_sandbox.Json.{Json, text, bool, null, Fields, fields, get_or, get_field, truthy}
use mx2_sandbox.Runtime.{Runtime, IsLawful}
use mx2_sandbox.AntiSpam.Grade.{spoofed_identity}
use mx2_sandbox.AntiSpam.Queue.Laws.{is_held}
use mx2_sandbox.Server.{Daemon, Call, text_or_empty}
use mx2_sandbox.Server.Submission.{Submission, read_submission}
use mx2_sandbox.Server.Translate.{handle_translate, submit, quarantined, message_id_of, grade_text}
use mx2_sandbox.Server.Translate.Replies.{submit_quarantines, envelope_of, hourly_count}
use mx2_sandbox.Server.Routes.{call_endpoint, serve, counted}
use mx2_sandbox.Ctl.Terminal.{green, white, rule}
use mx2_sandbox.Ctl.Request.{request_api, read_response}
use mx2_sandbox.Ctl.Request.Laws.{read_payload-sent, read_response-json}
use mx2_sandbox.Ctl.Queue.{QueueAction, list, cmd_queue}
use mx2_sandbox.Ctl.Queue.Answer.{cmd_queue_action, success_line}
use mx2_sandbox.Ctl.Mail.{
  MailArgs, smtp_payload, mail_payload, mail_key, mail_features, dispatching, mail_report,
  after_test, cmd_test,
}
use mx2_sandbox.Server.Routes.Paths.{translate_route}

-- what the daemon takes from the request
abbrev pub mail_submission : MailArgs → Submission
mail_submission args = record {
  raw_smtp = strip (smtp_payload args);
  pubkey = some mail_key;
  features = mail_features;
  vouch_token = null;
  voucher_pubkey = [];
  signature_valid = not args.spoof;
}

read_submission-mail :
    (args : MailArgs) → read_submission (mail_payload args) ≡ some (mail_submission args)
unfolding read_submission get_or get_field list_eq nat_eq text_or_empty truthy
read_submission-mail args = refl

mail-ne-nil : (args : MailArgs) → strip (smtp_payload args) ≢ []
unfolding smtp_payload is_space nat_eq
mail-ne-nil args = strip-ne-nil b'F' _ refl

-- the lines for a message that is held
abbrev pub quarantine_lines : Runtime → Str → Json → List Str
quarantine_lines R id translated =
    dispatching
    ∷ green (str "[+] Daemon Response Received!")
    ∷ (str "Status       : " ++ white (str "QUARANTINE"))
    ∷ (str "Trust Grade  : " ++ white (str "E"))
    ∷ (str "Message ID   : " ++ white id)
    ∷ (str "Reason       : " ++ spoofed_identity.reason)
    ∷ rule 50
    ∷ str "Translated Envelope Payload:"
    ∷ R.dumps_indent translated
    ∷ []

module _ (R : Runtime) (L : IsLawful R) (call : Call) where
  abbrev quarantined_fields : Str → Json → Fields
  quarantined_fields id translated = fields (
      (str "success", bool true)
      ∷ (str "status", text (str "QUARANTINE"))
      ∷ (str "grade", text (grade_text spoofed_identity.grade))
      ∷ (str "reason", text spoofed_identity.reason)
      ∷ (str "messageId", text id)
      ∷ (str "payload", translated)
      ∷ [])

  mail_report-quarantined :
      (id : Str) (translated : Json)
      → id ≢ []
      → dispatching ∷ mail_report R call (quarantined_fields id translated)
        ≡ quarantine_lines R id translated
  unfolding mail_report get_or get_field list_eq nat_eq truthy spoofed_identity
  mail_report-quarantined [] translated h = absurd (h refl)
  mail_report-quarantined (c ∷ id) translated h = refl

  report_quarantined :
      (id : Str) (translated : Json) (d : Daemon)
      → id ≢ []
      → after_test R call (read_response R call (quarantined spoofed_identity id translated), d)
        ≡ record { printed = quarantine_lines R id translated; exit_code = 0; daemon = d }
  unfolding after_test quarantined
  report_quarantined id translated d h =
      rw
        (
          quarantined,
          read_response-json R L call _ 200 (omega arith),
          mail_report-quarantined id translated h,
        )
        refl

  cmd_test_submits :
      (mx2_url : Str) (args : MailArgs) (d : Daemon)
      → cmd_test R call mx2_url true args d
        ≡ after_test R call (
          read_response R call (submit R call (mail_submission args) (counted d)).0,
          (submit R call (mail_submission args) (counted d)).1,
        )
  unfolding cmd_test request_api serve call_endpoint handle_translate
  cmd_test_submits mx2_url args d =
      rw
        (
          translate_route,
          call_endpoint,
          handle_translate,
          read_payload-sent R L (mail_payload args),
          read_submission-mail args,
        )
        refl

  -- `mx2ctl test --spoof`, over a lawful runtime and a daemon that can be reached: if the pair of
  -- domains of the mail is below the limit and its envelope is made and has an id that is not
  -- empty, the command ends with exit code 0 and reports QUARANTINE, grade E, that id and that
  -- envelope, and exactly that id is added to the ids of the held messages.
  pub cmd_test_spoofed :
      (mx2_url : Str) (args : MailArgs) (id j : Str) (translated : Json) (d : Daemon)
      → args.spoof ≡ true
      → hourly_count (mail_submission args) call.now d.anti_spam < d.anti_spam.quota_limit
      → envelope_of R call (mail_submission args) d ≡ some translated
      → message_id_of R call translated ≡ some id
      → id ≢ []
      → let ran = cmd_test R call mx2_url true args d in
        (ran.printed ≡ quarantine_lines R id translated)
        × (ran.exit_code ≡ 0)
        × (is_held j ran.daemon.anti_spam ≡ (j == id || is_held j d.anti_spam))
  cmd_test_spoofed mx2_url args id j translated d spoof room envelope named h =
      let (reply, held) =
        submit_quarantines R call j id (mail_submission args) translated (counted d) (rw spoof refl)
          (mail-ne-nil args) room envelope named in
      rw (cmd_test_submits mx2_url args d, reply, report_quarantined id translated _ h)
        (refl, refl, held)

  held_first : (id : Str) (b : Bool) → (id == id || b) ≡ true
  held_first id b = ground arith

  -- Under the conditions of such a report, `mx2ctl queue approve` or `reject` with the reported id,
  -- at any later time, ends with exit code 0 and prints its line of success.
  pub cmd_test_released :
      (mx2_url : Str) (args : MailArgs) (id : Str) (translated : Json) (later : Call)
      (action : QueueAction) (d : Daemon)
      → args.spoof ≡ true
      → hourly_count (mail_submission args) call.now d.anti_spam < d.anti_spam.quota_limit
      → envelope_of R call (mail_submission args) d ≡ some translated
      → message_id_of R call translated ≡ some id
      → id ≢ []
      → action ≢ list
      → let ran =
          cmd_queue R later mx2_url true action
            (some id)
            (cmd_test R call mx2_url true args d).daemon in
        (ran.printed ≡ success_line action id ∷ []) × (ran.exit_code ≡ 0)
  cmd_test_released mx2_url args id translated later action d spoof room envelope named h k =
      let (lines, code, held) =
        cmd_test_spoofed mx2_url args id id translated d spoof room envelope named h in
      rw
        (
          cmd_queue_action R L later mx2_url action id (cmd_test R call mx2_url true args d).daemon
              k h,
          held,
          held_first id (is_held id d.anti_spam),
        )
        (refl, refl)
