-- ===== src/Ctl/Mail.antt =====
-- `cmd_test` and `cmd_status` of mx2ctl.py.
pub mod Spoofed
use mx2_sandbox.Base.{
  Str, str, Bool, true, false, not, Option, none, some, List, [], ◌∷◌, ◌++◌, map, if◌then◌else◌,
}
use mx2_sandbox.Base.Text.{join}
use mx2_sandbox.Json.{
  Json, null, bool, text, arr, obj, end, Items, nil, cons, Fields, field, items, fields, get_or,
  truthy,
}
use mx2_sandbox.Runtime.{Runtime}
use mx2_sandbox.Server.{Daemon, Call}
use mx2_sandbox.Server.Handlers.Trust.{str_value}
use mx2_sandbox.Ctl.Terminal.{arg_or, Ran, esc, green, yellow, white, reset, rule, banner, closing}
use mx2_sandbox.Ctl.Request.{Reply, answered, stopped, request_api}

pub record MailArgs : Type 0 where
  pub sender : Option Str
  pub recipient : Option Str
  pub subject : Option Str
  pub body : Option Str
  pub spoof : Bool

unfoldable pub smtp_payload : MailArgs → Str
smtp_payload args =
    str "From: "
    ++ (arg_or (str "alice@example.com") args.sender
        ++ (10 ∷ str "To: "
            ++ (arg_or (str "bob@example.com") args.recipient
                ++ (10 ∷ str "Subject: "
                    ++ (arg_or (str "MX2 Live Connection Test") args.subject
                        ++ (10 ∷ str "Content-Type: text/plain"
                            ++ 10
                              ∷ 10
                              ∷ arg_or
                                  (str "This is an automated test message sent via mx2ctl CLI.")
                                  args.body))))))

abbrev pub mail_features : Json
mail_features = arr (items (text (str "HPKE") ∷ text (str "Sealed-Sender") ∷ []))

abbrev pub mail_key : Str
mail_key = str "MCowBQYDK2VwAyEAdS+7fGZ8A1839gBbcD81hS9bV2g327"

abbrev pub mail_payload : MailArgs → Fields
mail_payload args = fields (
    (str "smtp", text (smtp_payload args))
    ∷ (str "publicKey", text mail_key)
    ∷ (str "features", mail_features)
    ∷ (str "signatureValid", bool (not args.spoof))
    ∷ [])

abbrev pub dispatching : Str
dispatching = yellow (str "[*] Dispatching mock SMTP email to gateway daemon...")

-- `', '.join(v)`, with `none` for the exception of a value that holds no texts
unfoldable pub texts_of : Items → Option (List Str)
texts_of nil = some []
texts_of (cons (text s) vs) = elim (texts_of vs) [ none ↦ none | some ss ↦ some (s ∷ ss) ]
texts_of (cons v vs) = none

abbrev pub keys_of : Fields → List Str
keys_of end = []
keys_of (field key v fs) = key ∷ keys_of fs

abbrev pub joined : Json → Option Str
joined (arr vs) = elim (texts_of vs) [ none ↦ none | some ss ↦ some (join (str ", ") ss) ]
joined (text s) = some (join (str ", ") (map (λ c. c ∷ []) s))
joined (obj fs) = some (join (str ", ") (keys_of fs))
joined _ = none

module _ (R : Runtime) (call : Call) where
  -- `res.get(key)` in an f-string
  abbrev pub shown : Fields → Str → Str
  shown res key = str_value R call (get_or res key null)

  unfoldable pub mail_report : Fields → List Str
  mail_report res =
      let id_line = str "Message ID   : " ++ white (shown res (str "messageId")) in
      let below =
        (str "Reason       : " ++ shown res (str "reason"))
        ∷ rule 50
        ∷ str "Translated Envelope Payload:"
        ∷ R.dumps_indent (get_or res (str "payload") null)
        ∷ [] in
      green (str "[+] Daemon Response Received!")
      ∷ (str "Status       : " ++ white (shown res (str "status")))
      ∷ (str "Trust Grade  : " ++ white (shown res (str "grade")))
      ∷ (if truthy (get_or res (str "messageId") null) then id_line ∷ below else below)

  unfoldable pub after_test : Reply × Daemon → Ran
  unfolding mail_report
  after_test (stopped lines, d) = record {
    printed = dispatching ∷ lines;
    exit_code = 1;
    daemon = d;
  }
  after_test (answered (obj res), d) = record {
    printed = dispatching ∷ mail_report res;
    exit_code = 0;
    daemon = d;
  }
  after_test (answered v, d) = record {
    printed = dispatching ∷ green (str "[+] Daemon Response Received!") ∷ [];
    exit_code = 1;
    daemon = d;
  }

  abbrev pub status_head : Str → List Str
  status_head mx2_url =
      banner (str " MX2 GATEWAY DAEMON STATUS ")
      ++ green (str "Daemon State : RUNNING") ∷ (str "API Target   : " ++ mx2_url) ∷ rule 50 ∷ []

  abbrev pub version_line : Fields → Str
  version_line neg =
      str "Negotiated Ver: v"
      ++ str_value R call (get_or neg (str "protocolVersion") (text (str "unknown")))

  -- the lines of the report behind its head, and whether no exception ends them
  unfoldable pub negotiated_lines : Json → List Str × Bool
  unfolding texts_of
  negotiated_lines (obj neg) = elim (joined (get_or neg (str "features") (arr nil))) [
    | none ↦ (version_line neg ∷ [], false)
    | some features ↦
        (version_line neg ∷ (str "Active Features: " ++ features) ∷ closing ∷ [], true)
  ]
  negotiated_lines _ = ([], false)

  unfoldable pub after_status : Str → Reply × Daemon → Ran
  unfolding negotiated_lines banner
  after_status mx2_url (stopped lines, d) = record { printed = lines; exit_code = 1; daemon = d }
  after_status mx2_url (answered (obj res), d) =
      let (lines, good) = negotiated_lines (get_or res (str "negotiated") (obj end)) in
      record {
        printed = status_head mx2_url ++ lines;
        exit_code = if good then 0 else 1;
        daemon = d;
      }
  after_status mx2_url (answered v, d) = record {
    printed = status_head mx2_url;
    exit_code = 1;
    daemon = d;
  }

abbrev pub status_payload : Fields
status_payload = fields (
    (str "clientVersion", text (str "1.0.0"))
    ∷ (
      str "clientFeatures",
      arr (
          items (text (str "HPKE") ∷ text (str "Sealed-Sender") ∷ text (str "Trust-Routing") ∷ [])),
    )
    ∷ [])

module _ (R : Runtime) (call : Call) (mx2_url : Str) (reachable : Bool) where
  -- `cmd_test`
  unfoldable pub cmd_test : MailArgs → Daemon → Ran
  unfolding smtp_payload
  cmd_test args d =
      after_test R call
        (request_api R call mx2_url reachable (str "/api/translate") (mail_payload args) d)

  -- `cmd_status`
  unfoldable pub cmd_status : Daemon → Ran
  cmd_status d =
      after_status R call mx2_url
        (request_api R call mx2_url reachable (str "/api/negotiate") status_payload d)
