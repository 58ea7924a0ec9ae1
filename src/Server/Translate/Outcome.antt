-- ===== src/Server/Translate/Outcome.antt =====
-- What `_handle_translate` of src/web_server.py does to the trust engine, by the outcome.
use mx2_sandbox.Base.{
  ◌≡◌, ◌≢◌, ◌∙◌, refl, Str, true, [], leb, arith, ◌==◌, nat_eq, list_eq, Bool-cases, Option-cases,
  inl, inr,
}
use mx2_sandbox.Runtime.{Runtime}
use mx2_sandbox.Json.{Json}
use mx2_sandbox.AntiSpam.{Engine}
use mx2_sandbox.AntiSpam.Quota.{get_hourly_count, record_message}
use mx2_sandbox.AntiSpam.Queue.Laws.{is_held}
use mx2_sandbox.AntiSpam.Grade.{Trust, quarantine, evaluate_trust_grade}
use mx2_sandbox.AntiSpam.Grade.Rules.{quarantine_iff}
use mx2_sandbox.Server.{Daemon, Call}
use mx2_sandbox.Server.Submission.{Submission, route_of, sender_of}
use mx2_sandbox.Server.Translate.{
  translate_submission, load_translated, finish, translate_and_finish, check_quota, submit,
}

module _ (R : Runtime) (call : Call) where
  is_held-record :
      (j : Str) (s r : Str) (e : Engine) → is_held j (record_message s r call.now e) ≡ is_held j e
  unfolding record_message
  is_held-record j s r e = refl

  pub is_held-count :
      (j : Str) (s r : Str) (e : Engine)
      → is_held j (get_hourly_count s r call.now e).1 ≡ is_held j e
  unfolding get_hourly_count
  is_held-count j s r e = ground arith

  is_held-finish :
      (j : Str) (s : Submission) (trust : Trust) (translated : Json) (d : Daemon)
      → trust.destination ≢ quarantine
      → is_held j (finish R call s trust translated d).1.anti_spam ≡ is_held j d.anti_spam
  unfolding finish record_message
  is_held-finish j s trust translated d h = ground arith

  is_held-translate_and_finish :
      (j : Str) (s : Submission) (trust : Trust) (d : Daemon)
      → trust.destination ≢ quarantine
      → is_held j (translate_and_finish R call s trust d).1.anti_spam ≡ is_held j d.anti_spam
  unfolding translate_and_finish
  is_held-translate_and_finish j s trust d h =
      elim (Option-cases (load_translated R call (translate_submission R call s d.cas).0)) [
        | inl e ↦ rw (translate_and_finish, e) refl
        | inr (translated, e) ↦
            rw (translate_and_finish, e) (is_held-finish j s trust translated _ h)
      ]

  is_held-check_quota :
      (j : Str) (s : Submission) (trust : Trust) (d : Daemon)
      → trust.destination ≢ quarantine
      → is_held j (check_quota R call s trust d).1.anti_spam ≡ is_held j d.anti_spam
  unfolding check_quota
  is_held-check_quota j s trust d h =
      let (count, engine) =
        get_hourly_count (route_of s.raw_smtp).sender_domain (route_of s.raw_smtp).recipient_domain
          call.now d.anti_spam in
      let kept =
        is_held-count j (route_of s.raw_smtp).sender_domain (route_of s.raw_smtp).recipient_domain
          d.anti_spam in
      elim (Bool-cases (leb engine.quota_limit count)) [
        | inl e ↦ rw (check_quota, e) kept
        | inr e ↦ rw (check_quota, e) (is_held-translate_and_finish j s trust _ h ∙ kept)
      ]

  -- A submission whose signature is valid leaves the set of held messages as it was, whatever the
  -- outcome.
  pub is_held-submit :
      (j : Str) (s : Submission) (d : Daemon)
      → s.signature_valid ≡ true
      → is_held j (submit R call s d).1.anti_spam ≡ is_held j d.anti_spam
  unfolding submit
  is_held-submit j s d valid = elim (Bool-cases (s.raw_smtp == [])) [
    | inl e ↦ rw (submit, e) refl
    | inr e ↦ elim (Option-cases (evaluate_trust_grade R d.anti_spam (sender_of s) call.now)) [
      | inl e' ↦ rw (submit, e, e') refl
      | inr (trust, e') ↦
          rw (submit, e, e')
            (is_held-check_quota j s trust d
              (ground (arith, valid, quarantine_iff R d.anti_spam (sender_of s) call.now trust e')))
    ]
  ]
