-- ===== src/Proxy/Smtp/Delivery/Quarantine.antt =====
-- The payloads of the SMTP proxy of src/legacy_proxy.py and the quarantine of src/web_server.py.
use mx2_sandbox.Base.{
  ◌≡◌, ◌∙◌, refl, Str, str, Bool, true, false, some, List, [], ◌∷◌, All, All-append, arith, nat_eq,
  list_eq, Option-cases, inl, inr,
}
use mx2_sandbox.Base.Text.{strip, join}
use mx2_sandbox.Json.{Json, null, text, Fields, fields, get_or, get_field, truthy}
use mx2_sandbox.Runtime.{Runtime, IsLawful}
use mx2_sandbox.Gateway.Translate.{Fresh, translate_smtp_to_mx2}
use mx2_sandbox.AntiSpam.Queue.Laws.{is_held}
use mx2_sandbox.Server.{Daemon, Call, text_or_empty}
use mx2_sandbox.Server.Submission.{Submission, read_submission}
use mx2_sandbox.Server.Translate.{handle_translate}
use mx2_sandbox.Server.Translate.Outcome.{is_held-submit}
use mx2_sandbox.Server.Routes.{call_endpoint, serve, counted}
use mx2_sandbox.Ctl.Request.Laws.{read_payload-sent}
use mx2_sandbox.Proxy.Smtp.{
  Session, api_payload, load_dict, end_data, handle_data, handle_command, handle_line,
  handle_client,
}
use mx2_sandbox.Proxy.Smtp.Delivery.{post_to_gateway, post_all}
use mx2_sandbox.Server.Routes.Paths.{translate_route}

-- what the daemon takes from a payload of the proxy
abbrev pub proxied : Str → Fields → Submission
proxied raw_mime translated = record {
  raw_smtp = strip raw_mime;
  pubkey = text_or_empty (get_or translated (str "recipient") (text []));
  features = null;
  vouch_token = null;
  voucher_pubkey = [];
  signature_valid = true;
}

abbrev payload_fields : Str → Fields → Fields
payload_fields raw_mime translated = fields (
    (str "smtp", text raw_mime)
    ∷ (str "publicKey", get_or translated (str "recipient") (text []))
    ∷ [])

read_submission-proxied :
    (raw_mime : Str) (translated : Fields)
    → read_submission (payload_fields raw_mime translated) ≡ some (proxied raw_mime translated)
unfolding read_submission get_or get_field list_eq nat_eq truthy
read_submission-proxied raw_mime translated = refl

abbrev pub IsPayload : Json → Type 0
IsPayload v = (raw_mime : Str) × (translated : Fields) × (v ≡ api_payload raw_mime translated)

module _ (R : Runtime) where
  command-payloads : (line : Str) (s : Session) → (handle_command line s).posted ≡ s.posted
  unfolding handle_command
  command-payloads line s = ground arith

  end_data-payloads :
      (fresh : Fresh) (s : Session)
      → All IsPayload s.posted
      → All IsPayload (end_data R fresh s).posted
  unfolding end_data
  end_data-payloads fresh s h =
      elim (Option-cases (
        load_dict R (translate_smtp_to_mx2 R fresh (join [] s.data_buffer) [] null null s.cas).0)) [
          | inl e ↦ rw (end_data, e) h
          | inr (translated, e) ↦
              rw (end_data, e)
                (All-append IsPayload s.posted _ h ((join [] s.data_buffer, translated, refl), tt))
        ]

  pub line-payloads :
      (fresh : Fresh) (line : Str) (s : Session)
      → All IsPayload s.posted
      → All IsPayload (handle_line R fresh line s).posted
  unfolding handle_line handle_data
  line-payloads fresh line s h =
      ground (arith, h, end_data-payloads fresh s h, command-payloads line s)

  session-payloads :
      (lines : List (Fresh × Str)) (s : Session)
      → All IsPayload s.posted
      → All IsPayload (handle_client R lines s).posted
  unfolding handle_client
  session-payloads [] s h = h
  session-payloads ((fresh, line) ∷ lines) s h =
      session-payloads lines (handle_line R fresh line s) (line-payloads fresh line s h)

  module _ (L : IsLawful R) where
    is_held-handle_translate :
        (call : Call) (j raw_mime : Str) (translated : Fields) (d : Daemon)
        → is_held j
            (handle_translate R call
              (R.decode (R.encode (R.dumps (api_payload raw_mime translated))))
              d).1.anti_spam
          ≡ is_held j d.anti_spam
    unfolding handle_translate
    is_held-handle_translate call j raw_mime translated d =
        rw
          (
            handle_translate,
            read_payload-sent R L (payload_fields raw_mime translated),
            read_submission-proxied raw_mime translated,
          )
          (is_held-submit R call j (proxied raw_mime translated) d refl)

    is_held-post_to_gateway :
        (call : Call) (reachable : Bool) (j : Str) (v : Json) (d : Daemon)
        → IsPayload v
        → is_held j (post_to_gateway R (call, reachable) (str "/api/translate") v d).anti_spam
          ≡ is_held j d.anti_spam
    unfolding post_to_gateway serve call_endpoint
    is_held-post_to_gateway call true j v d (raw_mime, translated, e) =
        rw (e, translate_route, call_endpoint)
          (is_held-handle_translate call j raw_mime translated (counted d))
    is_held-post_to_gateway call false j v d p = refl

    pub is_held-post_all :
        (calls : List (Call × Bool)) (j : Str) (vs : List Json) (d : Daemon)
        → All IsPayload vs
        → is_held j (post_all R calls vs d).anti_spam ≡ is_held j d.anti_spam
    unfolding post_all
    is_held-post_all [] j vs d h = refl
    is_held-post_all (c ∷ calls) j [] d h = refl
    is_held-post_all ((call, reachable) ∷ calls) j (v ∷ vs) d (p, h) =
        is_held-post_all calls j vs _ h ∙ is_held-post_to_gateway call reachable j v d p
