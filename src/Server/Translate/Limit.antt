-- ===== src/Server/Translate/Limit.antt =====
-- `_handle_translate` of src/web_server.py keeps the invariants of the quota.
use mx2_sandbox.Base.{
  ℕ, Str, Option, [], leb, arith, ◌==◌, nat_eq, list_eq, pair_eq, Bool-cases, Option-cases, inl,
  inr,
}
use mx2_sandbox.Json.{Json}
use mx2_sandbox.Runtime.{Runtime}
use mx2_sandbox.AntiSpam.{Engine}
use mx2_sandbox.AntiSpam.Quota.{get_hourly_count, record_message}
use mx2_sandbox.AntiSpam.Quota.Invariant.{QuotaInvariant, SameQuota}
use mx2_sandbox.AntiSpam.Quota.Limit.{quota_limit-get_hourly_count}
use mx2_sandbox.AntiSpam.Queue.{quarantine_message}
use mx2_sandbox.AntiSpam.Grade.{Trust, evaluate_trust_grade}
use mx2_sandbox.Server.{Daemon, Call, read_payload, ◌>>=◌}
use mx2_sandbox.Server.Submission.{Submission, read_submission, route_of, sender_of}
use mx2_sandbox.Server.Translate.{
  translate_submission, finish, translate_and_finish, check_quota, submit, handle_translate,
  load_translated,
}

module _ (R : Runtime) where
  quarantine_message-SameQuota :
      (id sender subject : Str) (envelope : Json) (now : ℕ) (e : Engine)
      → SameQuota e (quarantine_message R id sender subject envelope now e)
  unfolding quarantine_message
  quarantine_message-SameQuota id sender subject envelope now e = (ground arith, ground arith)

  module _ (call : Call) (I : QuotaInvariant) where
    abbrev sent_by_call : Submission → Daemon → Engine
    sent_by_call s d =
        record_message (route_of s.raw_smtp).sender_domain (route_of s.raw_smtp).recipient_domain
          call.now d.anti_spam

    abbrev counted_by_call : Submission → Daemon → ℕ × Engine
    counted_by_call s d =
        get_hourly_count (route_of s.raw_smtp).sender_domain (route_of s.raw_smtp).recipient_domain
          call.now d.anti_spam

    finish-SameQuota :
        (s : Submission) (trust : Trust) (translated : Json) (d : Daemon)
        → SameQuota (sent_by_call s d) (finish R call s trust translated d).1.anti_spam
    finish-SameQuota s trust translated d =
        unfold finish in grind (arith, quarantine_message-SameQuota)

    translate_and_finish-Holds :
        (s : Submission) (trust : Trust) (d : Daemon)
        → I.Holds call.now d.anti_spam
        → I.Holds call.now (sent_by_call s d)
        → I.Holds call.now (translate_and_finish R call s trust d).1.anti_spam
    unfolding translate_and_finish
    translate_and_finish-Holds s trust d old sent =
        elim (Option-cases (load_translated R call (translate_submission R call s d.cas).0)) [
          | inl e ↦ rw (translate_and_finish, e) old
          | inr (translated, e) ↦
              rw (translate_and_finish, e)
                (I.same call.now (sent_by_call s d) _ (finish-SameQuota s trust translated _) sent)
        ]

    check_quota-Holds :
        (s : Submission) (trust : Trust) (d : Daemon)
        → I.Holds call.now d.anti_spam
        → I.Holds call.now (check_quota R call s trust d).1.anti_spam
    unfolding check_quota
    check_quota-Holds s trust d old =
        let sender = (route_of s.raw_smtp).sender_domain in
        let recipient = (route_of s.raw_smtp).recipient_domain in
        let counted = I.counts sender recipient call.now d.anti_spam old in
        elim (Bool-cases (leb (counted_by_call s d).1.quota_limit (counted_by_call s d).0)) [
          | inl e ↦ rw (check_quota, e) counted
          | inr e ↦
              rw (check_quota, e)
                (translate_and_finish-Holds s trust
                  (record d { anti_spam = (counted_by_call s d).1 }) counted
                  (I.records sender recipient call.now d.anti_spam old (
                    ground (
                      arith,
                      e,
                      quota_limit-get_hourly_count sender recipient call.now d.anti_spam,
                    ))))
        ]

    submit-Holds :
        (s : Submission) (d : Daemon)
        → I.Holds call.now d.anti_spam
        → I.Holds call.now (submit R call s d).1.anti_spam
    unfolding submit
    submit-Holds s d old = elim (Bool-cases (s.raw_smtp == [])) [
      | inl e ↦ rw (submit, e) old
      | inr e ↦ elim (Option-cases (evaluate_trust_grade R d.anti_spam (sender_of s) call.now)) [
        | inl e' ↦ rw (submit, e, e') old
        | inr (trust, e') ↦ rw (submit, e, e') (check_quota-Holds s trust d old)
      ]
    ]

    pub handle_translate-Holds :
        (body : Option Str) (d : Daemon)
        → I.Holds call.now d.anti_spam
        → I.Holds call.now (handle_translate R call body d).1.anti_spam
    unfolding handle_translate
    handle_translate-Holds body d old =
        elim (Option-cases (read_payload R body >>= read_submission)) [
          | inl e ↦ rw (handle_translate, e) old
          | inr (s, e) ↦ rw (handle_translate, e) (submit-Holds s d old)
        ]
