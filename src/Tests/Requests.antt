-- ===== src/Tests/Requests.antt =====
-- Sequences of requests to the daemon.
use mx2_sandbox.Base.{
  ℕ, ◌+◌, ◌*◌, ◌^◌, ◌<◌, ◌≤◌, ◌≡◌, ◌≢◌, length, ◌↔◌, ◌||◌, refl, Str, str, true, false, Option,
  none, some, List, [], ◌∷◌, arith, ◌==◌, nat_eq, list_eq,
}
use mx2_sandbox.Json.{truthy, Json, null, text, dict, get_or, get_field}
use mx2_sandbox.Base.Hex.{to_hex}
use mx2_sandbox.Cas.{content_hash, read}
use mx2_sandbox.AntiSpam.Quota.{get_hourly_count, history_of}
use mx2_sandbox.AntiSpam.Queue.Laws.{is_held}
use mx2_sandbox.AntiSpam.Grade.{
  by_contacts, has_vouch, is_on_whitelist, is_reputable, spoofed_identity, unknown_sender,
  evaluate_trust_grade,
}
use mx2_sandbox.Base.Text.{lower, split_once, splitlines, starts_with, strip, split, join}
use mx2_sandbox.Base.Dict.{lookup}
use mx2_sandbox.Server.{Call, read_payload, ◌>>=◌}
use mx2_sandbox.Server.Submission.{header_value, route_of, sender_of}
use mx2_sandbox.Server.Translate.{translate_submission, submit, quarantined, message_id_of}
use mx2_sandbox.Server.Translate.Outcome.{is_held-submit}
use mx2_sandbox.Server.Translate.Replies.{
  submit_quarantines, rate_limited_iff, envelope_of, hourly_count,
}
use mx2_sandbox.Server.Handlers.Blobs.{downloaded, read_content, read_hash}
use mx2_sandbox.Server.Routes.{Request, post, serve, serve_all, url_path, cut_parameters}
use mx2_sandbox.Server.Routes.Counters.{metrics-serve_all}
use mx2_sandbox.Server.Routes.Quota.{quota_never_exceeded}
use mx2_sandbox.Server.Routes.Histories.{history_never_longer}
use mx2_sandbox.Server.Routes.Recovery.{quota_recovers}
use mx2_sandbox.Server.Routes.Isolation.{serve_pure}
use mx2_sandbox.Server.Routes.Contents.{serve_all-Keeps, download-upload}
use mx2_sandbox.Tests.Codec.{dump, load}
use mx2_sandbox.Tests.Machine.{machine, machine-IsLawful, pad}
use mx2_sandbox.Tests.Data.{call_at, daemon, submission, translate_body, upload_body}
use mx2_sandbox.Gateway.Body.{process_message, process_single, process_text_part}
use mx2_sandbox.Gateway.Header.{occurs}
use mx2_sandbox.Gateway.Hpke.{encrypt_payload}
use mx2_sandbox.Gateway.Translate.{
  addresses, did_or, features_or_default, inner_payload, outer_envelope, recipient_address,
  recipients_list, sender_address, translate_smtp_to_mx2,
}
use mx2_sandbox.Storage.{get_whitelisted_set}

abbrev json_or_null : Option Json → Json
json_or_null none = null
json_or_null (some v) = v

abbrev text_or_none : Option Str → Str
text_or_none none = []
text_or_none (some s) = s

abbrev three_translations : List (Call × Request)
three_translations =
    (call_at 1, post (str "/api/translate") translate_body)
    ∷ (call_at 1, post (str "/api/translate") translate_body)
    ∷ (call_at 5, post (str "/api/translate") translate_body)
    ∷ []

quota_never_exceeded_example :
    (get_hourly_count
      (str "evil.net")
      (str "example.com")
      (9 * 10 ^ 6)
      (serve_all machine three_translations daemon).anti_spam).0
    ≤ 2
quota_never_exceeded_example =
    quota_never_exceeded machine 0 (9 * 10 ^ 6) three_translations daemon (str "evil.net")
      (str "example.com") refl (omega arith, (omega arith, (omega arith, omega arith)))

metrics-serve_all_example :
    (serve_all machine three_translations daemon).metrics
    ≡ record daemon.metrics { api_requests_total = daemon.metrics.api_requests_total + 3 }
metrics-serve_all_example = metrics-serve_all machine three_translations daemon

serve_pure_example :
    (serve machine (call_at 1) (post (str "/api/revoke") translate_body) daemon).1 ≡ record daemon {
      metrics = record daemon.metrics {
        api_requests_total = daemon.metrics.api_requests_total + 1;
      };
    }
unfolding url_path split cut_parameters join list_eq nat_eq
serve_pure_example =
    serve_pure machine (call_at 1) (post (str "/api/revoke") translate_body) daemon refl

abbrev hash_of : Str → Str
hash_of s = content_hash machine s

abbrev download_body : Option Str
download_body = some (dump (dict ((str "sha256", text (hash_of (str "report"))) ∷ [])))

upload_body-content : (read_payload machine upload_body >>= read_content) ≡ some (str "report")
unfolding read_payload get_or get_field dump load list_eq nat_eq
upload_body-content = refl

download_body-hash :
    (read_payload machine download_body >>= read_hash) ≡ some (hash_of (str "report"))
unfolding read_payload get_or get_field dump load list_eq nat_eq content_hash pad
download_body-hash = refl

nothing_stored : (b : List ℕ) → read (hash_of (str "report")) daemon.cas ≡ some b → b ≡ str "report"
unfolding read lookup
nothing_stored b found = cc

download-upload_example :
    (serve machine (call_at 9) (post (str "/api/cas/download") download_body) (
      serve_all machine
        ((call_at 1, post (str "/api/cas/upload") upload_body) ∷ three_translations)
        daemon)).0
    ≡ downloaded (str "report")
download-upload_example =
    download-upload machine machine-IsLawful (call_at 1) (call_at 9) three_translations upload_body
      download_body (str "report") daemon upload_body-content download_body-hash nothing_stored

serve_all-Keeps_example :
    read
      (str "ab")
      (serve_all machine three_translations (record daemon { cas = (str "ab", str "x") ∷ [] })).cas
    ≡ some (str "x")
unfolding read lookup list_eq nat_eq
serve_all-Keeps_example =
    serve_all-Keeps machine three_translations (record daemon { cas = (str "ab", str "x") ∷ [] })
      (str "ab") (str "x") refl

is_held-submit_example :
    is_held (str "m") (submit machine (call_at 1) (submission true) daemon).1.anti_spam
    ≡ is_held (str "m") daemon.anti_spam
is_held-submit_example = is_held-submit machine (call_at 1) (str "m") (submission true) daemon refl

graded :
    evaluate_trust_grade machine daemon.anti_spam (sender_of (submission true)) (call_at 1).now
    ≡ some unknown_sender
unfolding evaluate_trust_grade is_on_whitelist get_whitelisted_set is_reputable list_eq strip lower
    route_of split splitlines starts_with header_value split_once has_vouch truthy unknown_sender
    by_contacts lookup
graded = refl

rate_limited_iff_example :
    ((submit machine (call_at 1) (submission true) daemon).0.status ≡ 429)
    ↔ (2 ≤ hourly_count (submission true) (call_at 1).now daemon.anti_spam)
rate_limited_iff_example =
    rate_limited_iff machine (call_at 1) (submission true) unknown_sender daemon (λ e. cc) graded

-- what the daemon makes of the submission
abbrev envelope : Json
envelope = json_or_null (envelope_of machine (call_at 1) (submission false) daemon)

envelope_lem : envelope_of machine (call_at 1) (submission false) daemon ≡ some envelope
unfolding translate_smtp_to_mx2 encrypt_payload load dump outer_envelope truthy to_hex pad
    inner_payload recipients_list addresses split list_eq strip process_message process_single
    process_text_part sender_address did_or occurs features_or_default recipient_address
    translate_submission
envelope_lem = refl

abbrev held_id : Str
held_id = text_or_none (message_id_of machine (call_at 1) envelope)

held_id_lem : message_id_of machine (call_at 1) envelope ≡ some held_id
unfolding translate_smtp_to_mx2 encrypt_payload load dump outer_envelope truthy to_hex pad
    inner_payload recipients_list addresses split list_eq strip process_message process_single
    process_text_part sender_address did_or occurs features_or_default recipient_address get_or
    translate_submission
held_id_lem = refl

room :
    hourly_count (submission false) (call_at 1).now daemon.anti_spam < daemon.anti_spam.quota_limit
unfolding get_hourly_count lookup
room = omega arith

submit_quarantines_example :
    ((submit machine (call_at 1) (submission false) daemon).0
      ≡ quarantined spoofed_identity held_id envelope)
    × (is_held (str "m") (submit machine (call_at 1) (submission false) daemon).1.anti_spam
        ≡ (str "m" == held_id || is_held (str "m") daemon.anti_spam))
submit_quarantines_example =
    submit_quarantines machine (call_at 1) (str "m") held_id (submission false) envelope daemon refl
      (λ e. cc) room envelope_lem held_id_lem

history_never_longer_example :
    length (
      history_of
        (str "evil.net", str "example.com")
        (serve_all machine three_translations daemon).anti_spam)
    ≤ 2
history_never_longer_example =
    history_never_longer machine three_translations daemon (str "evil.net", str "example.com") refl

quota_recovers_example :
    (submit machine
      (call_at 3605)
      (submission true)
      (serve_all machine three_translations daemon)).0.status
    ≢ 429
quota_recovers_example =
    quota_recovers machine (call_at 3605) 0 (5 * 10 ^ 6) three_translations daemon (submission true)
      refl (omega arith) (omega arith, (omega arith, (omega arith, omega arith))) (omega arith)
