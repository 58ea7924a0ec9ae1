-- ===== src/Server/Translate/Replies.antt =====
-- The replies of `_handle_translate` of src/web_server.py: quarantine and the rate limit.
use mx2_sandbox.Base.{
  ℕ, ◌≡◌, ◌≢◌, ◌≤◌, ◌<◌, ◌↔◌, ◌||◌, ◌∙◌, ap, refl, Str, false, Option, some, [], leb, arith, ◌==◌,
  nat_eq, list_eq,
}
use mx2_sandbox.Runtime.{Runtime}
use mx2_sandbox.Json.{Json}
use mx2_sandbox.AntiSpam.{Engine}
use mx2_sandbox.AntiSpam.Quota.{get_hourly_count, record_message}
use mx2_sandbox.AntiSpam.Quota.Limit.{quota_limit-get_hourly_count}
use mx2_sandbox.AntiSpam.Queue.Laws.{is_held, is_held-quarantine_message}
use mx2_sandbox.AntiSpam.Grade.{Trust, evaluate_trust_grade, spoofed_identity}
use mx2_sandbox.Server.Translate.Outcome.{is_held-count}
use mx2_sandbox.Server.{Daemon, Call, send_error, send_json}
use mx2_sandbox.Server.Submission.{Submission, route_of, sender_of}
use mx2_sandbox.Server.Translate.{
  translate_submission, load_translated, message_id_of, finish, translate_and_finish, check_quota,
  submit, quarantined, delivered, translation_failed, rate_limited,
}

-- the count of messages that a submission is tested with
abbrev pub hourly_count : Submission → ℕ → Engine → ℕ
hourly_count s now e =
    (get_hourly_count (route_of s.raw_smtp).sender_domain (route_of s.raw_smtp).recipient_domain now
      e).0

module _ (R : Runtime) (call : Call) where
  nonempty_lem : (xs : Str) → xs ≢ [] → (xs == []) ≡ false
  nonempty_lem xs h = ground arith

  evaluate_invalid :
      (e : Engine) (s : Submission)
      → s.signature_valid ≡ false
      → evaluate_trust_grade R e (sender_of s) call.now ≡ some spoofed_identity
  unfolding evaluate_trust_grade
  evaluate_invalid e s h = rw h refl

  -- what the envelope of a submission is loaded as
  abbrev pub envelope_of : Submission → Daemon → Option Json
  envelope_of s d = load_translated R call (translate_submission R call s d.cas).0

  finish_quarantine :
      (j id : Str) (s : Submission) (translated : Json) (d : Daemon)
      → message_id_of R call translated ≡ some id
      → ((finish R call s spoofed_identity translated d).0
          ≡ quarantined spoofed_identity id translated)
        × (is_held j (finish R call s spoofed_identity translated d).1.anti_spam
            ≡ (j == id || is_held j d.anti_spam))
  unfolding finish spoofed_identity
  finish_quarantine j id s translated d h = (
    rw (finish, h) refl,
    rw (finish, h)
        (is_held-quarantine_message R id _ _ translated call.now _ j
          ∙ ap (λ b. j == id || b) (unfold record_message in refl)),
  )

  translate_quarantine :
      (j id : Str) (s : Submission) (translated : Json) (d : Daemon)
      → envelope_of s d ≡ some translated
      → message_id_of R call translated ≡ some id
      → ((translate_and_finish R call s spoofed_identity d).0
          ≡ quarantined spoofed_identity id translated)
        × (is_held j (translate_and_finish R call s spoofed_identity d).1.anti_spam
            ≡ (j == id || is_held j d.anti_spam))
  unfolding translate_and_finish
  translate_quarantine j id s translated d envelope named =
      rw (translate_and_finish, envelope) (finish_quarantine j id s translated _ named)

  check_quota_quarantine :
      (j id : Str) (s : Submission) (translated : Json) (d : Daemon)
      → hourly_count s call.now d.anti_spam < d.anti_spam.quota_limit
      → envelope_of s d ≡ some translated
      → message_id_of R call translated ≡ some id
      → ((check_quota R call s spoofed_identity d).0 ≡ quarantined spoofed_identity id translated)
        × (is_held j (check_quota R call s spoofed_identity d).1.anti_spam
            ≡ (j == id || is_held j d.anti_spam))
  unfolding check_quota
  check_quota_quarantine j id s translated d room envelope named =
      let sender = (route_of s.raw_smtp).sender_domain in
      let recipient = (route_of s.raw_smtp).recipient_domain in
      let (count, engine) = get_hourly_count sender recipient call.now d.anti_spam in
      let below : leb engine.quota_limit count ≡ false =
        ground (arith, room, quota_limit-get_hourly_count sender recipient call.now d.anti_spam) in
      let (reply, held) =
        translate_quarantine j id s translated (record d { anti_spam = engine }) envelope named in
      (
        rw (check_quota, below) reply,
        rw (check_quota, below)
            (held ∙ ap (λ b. j == id || b) (is_held-count R call j sender recipient d.anti_spam)),
      )

  -- A submission with a text and an invalid signature, whose pair of domains is below the limit
  -- and whose envelope is made and has an id, is answered as quarantined with that id and
  -- envelope, and exactly that id is added to the ids of the held messages.
  pub submit_quarantines :
      (j id : Str) (s : Submission) (translated : Json) (d : Daemon)
      → s.signature_valid ≡ false
      → s.raw_smtp ≢ []
      → hourly_count s call.now d.anti_spam < d.anti_spam.quota_limit
      → envelope_of s d ≡ some translated
      → message_id_of R call translated ≡ some id
      → ((submit R call s d).0 ≡ quarantined spoofed_identity id translated)
        × (is_held j (submit R call s d).1.anti_spam ≡ (j == id || is_held j d.anti_spam))
  unfolding submit
  submit_quarantines j id s translated d invalid filled room envelope named =
      rw (submit, nonempty_lem s.raw_smtp filled, evaluate_invalid d.anti_spam s invalid)
        (check_quota_quarantine j id s translated d room envelope named)

  status-finish :
      (s : Submission) (trust : Trust) (translated : Json) (d : Daemon)
      → (finish R call s trust translated d).0.status ≢ 429
  unfolding finish quarantined delivered translation_failed send_error send_json
  status-finish s trust translated d = ground arith

  status-translate_and_finish :
      (s : Submission) (trust : Trust) (d : Daemon)
      → (translate_and_finish R call s trust d).0.status ≢ 429
  unfolding translate_and_finish translation_failed send_error send_json
  status-translate_and_finish s trust d = grind (arith, status-finish)

  -- Of a submission with a text, for which the trust engine gives a grade, the status of the reply
  -- is 429 exactly if the hourly count of its pair of domains has reached the limit.
  pub rate_limited_iff :
      (s : Submission) (trust : Trust) (d : Daemon)
      → s.raw_smtp ≢ []
      → evaluate_trust_grade R d.anti_spam (sender_of s) call.now ≡ some trust
      → ((submit R call s d).0.status ≡ 429)
        ↔ (d.anti_spam.quota_limit ≤ hourly_count s call.now d.anti_spam)
  unfolding submit check_quota rate_limited send_error send_json
  rate_limited_iff s trust d filled graded = ground (
    arith,
    graded,
    quota_limit-get_hourly_count (route_of s.raw_smtp).sender_domain
        (route_of s.raw_smtp).recipient_domain call.now d.anti_spam,
    status-translate_and_finish s trust (record d {
      anti_spam =
          (get_hourly_count (route_of s.raw_smtp).sender_domain
            (route_of s.raw_smtp).recipient_domain call.now d.anti_spam).1;
    }),
  )
