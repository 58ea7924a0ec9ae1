-- ===== src/Server/Routes/Contract/Translate.antt =====
-- The replies of `_handle_translate` of src/web_server.py.
use mx2_sandbox.Base.{
  ◌≡◌, ◌⊎◌, refl, Str, Option, [], leb, arith, ◌==◌, nat_eq, list_eq, Bool-cases, Option-cases, inl,
  inr,
}
use mx2_sandbox.Json.{Json}
use mx2_sandbox.Runtime.{Runtime}
use mx2_sandbox.AntiSpam.Grade.{Trust, Destination, inbox, junk, quarantine, evaluate_trust_grade}
use mx2_sandbox.AntiSpam.Quota.{get_hourly_count}
use mx2_sandbox.Server.{Daemon, Call, read_payload, ◌>>=◌}
use mx2_sandbox.Server.Submission.{Submission, read_submission, route_of, sender_of}
use mx2_sandbox.Server.Translate.{
  finish, translate_and_finish, check_quota, submit, handle_translate, translate_submission,
  load_translated, empty_payload, rate_limited, quarantined, delivered, message_id_of,
}
use mx2_sandbox.Server.Routes.Contract.{Answers, good, bad, translation_failed-Answers}

destination-cases : (x : Destination) → (x ≡ quarantine) ⊎ ((x ≡ inbox) ⊎ (x ≡ junk))
destination-cases quarantine = inl refl
destination-cases inbox = inr (inl refl)
destination-cases junk = inr (inr refl)

module _ (R : Runtime) (call : Call) where
  quarantined-Answers :
      (trust : Trust) (id : Str) (translated : Json)
      → Answers call (quarantined trust id translated)
  quarantined-Answers trust id translated = unfold quarantined in good call _

  delivered-Answers :
      (trust : Trust) (translated : Json) → Answers call (delivered trust translated)
  delivered-Answers trust translated = unfold delivered in good call _

  finish-Answers :
      (s : Submission) (trust : Trust) (translated : Json) (d : Daemon)
      → Answers call (finish R call s trust translated d).0
  unfolding finish
  finish-Answers s trust translated d = elim (destination-cases trust.destination) [
    | inl e ↦ elim (Option-cases (message_id_of R call translated)) [
      | inl e' ↦ rw (finish, e, e') (translation_failed-Answers call)
      | inr (id, e') ↦ rw (finish, e, e') (quarantined-Answers trust id translated)
    ]
    | inr (inl e) ↦ rw (finish, e) (delivered-Answers trust translated)
    | inr (inr e) ↦ rw (finish, e) (delivered-Answers trust translated)
  ]

  translate_and_finish-Answers :
      (s : Submission) (trust : Trust) (d : Daemon)
      → Answers call (translate_and_finish R call s trust d).0
  unfolding translate_and_finish
  translate_and_finish-Answers s trust d =
      elim (Option-cases (load_translated R call (translate_submission R call s d.cas).0)) [
        | inl e ↦ rw (translate_and_finish, e) (translation_failed-Answers call)
        | inr (translated, e) ↦ rw (translate_and_finish, e) (finish-Answers s trust translated _)
      ]

  rate_limited-Answers : (domain : Str) → Answers call (rate_limited domain call)
  rate_limited-Answers domain = unfold rate_limited in bad call _ _ _ 429 (omega arith)

  empty_payload-Answers : Answers call (empty_payload call)
  empty_payload-Answers = unfold empty_payload in bad call _ _ _ 400 (omega arith)

  check_quota-Answers :
      (s : Submission) (trust : Trust) (d : Daemon) → Answers call (check_quota R call s trust d).0
  unfolding check_quota
  check_quota-Answers s trust d =
      let (count, engine) =
        get_hourly_count (route_of s.raw_smtp).sender_domain (route_of s.raw_smtp).recipient_domain
          call.now d.anti_spam in
      elim (Bool-cases (leb engine.quota_limit count)) [
        | inl e ↦ rw (check_quota, e) (rate_limited-Answers _)
        | inr e ↦ rw (check_quota, e) (translate_and_finish-Answers s trust _)
      ]

  submit-Answers : (s : Submission) (d : Daemon) → Answers call (submit R call s d).0
  unfolding submit
  submit-Answers s d = elim (Bool-cases (s.raw_smtp == [])) [
    | inl e ↦ rw (submit, e) empty_payload-Answers
    | inr e ↦ elim (Option-cases (evaluate_trust_grade R d.anti_spam (sender_of s) call.now)) [
      | inl e' ↦ rw (submit, e, e') (translation_failed-Answers call)
      | inr (trust, e') ↦ rw (submit, e, e') (check_quota-Answers s trust d)
    ]
  ]

  pub translate-Answers :
      (body : Option Str) (d : Daemon) → Answers call (handle_translate R call body d).0
  unfolding handle_translate
  translate-Answers body d = elim (Option-cases (read_payload R body >>= read_submission)) [
    | inl e ↦ rw (handle_translate, e) (translation_failed-Answers call)
    | inr (s, e) ↦ rw (handle_translate, e) (submit-Answers s d)
  ]
