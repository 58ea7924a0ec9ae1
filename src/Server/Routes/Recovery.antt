-- ===== src/Server/Routes/Recovery.antt =====
-- When a limit of src/anti_spam.py ends for the submissions to src/web_server.py.
use mx2_sandbox.Base.{
  ℕ, ◌+◌, ◌≤◌, ◌<◌, ◌≡◌, ◌≢◌, ◌∙◌, refl, Str, Bool, List, [], ◌∷◌, length, select, All, All-append,
  arith, ◌==◌, nat_eq, list_eq, pair_eq, Bool-cases, Option-cases, inl, inr,
}
use mx2_sandbox.Runtime.{Runtime}
use mx2_sandbox.AntiSpam.{Engine}
use mx2_sandbox.AntiSpam.Grade.{evaluate_trust_grade}
use mx2_sandbox.AntiSpam.Quota.{
  hour, is_recent, get_hourly_count, record_message, quota_key, history_of,
}
use mx2_sandbox.AntiSpam.Quota.Invariant.{QuotaInvariant, SameQuota}
use mx2_sandbox.AntiSpam.Quota.Limit.{
  quota_limit-get_hourly_count, quota_limit-record_message, history_of-same,
}
use mx2_sandbox.AntiSpam.Quota.Window.{
  count_lem, history_of_new, history_of-record_message, history_of-get_hourly_count, sent_by,
  recorded,
}
use mx2_sandbox.Server.{Daemon, Call, send_error, send_json}
use mx2_sandbox.Server.Submission.{Submission, route_of, sender_of}
use mx2_sandbox.Server.Translate.{submit, empty_payload, translation_failed}
use mx2_sandbox.Server.Translate.Replies.{rate_limited_iff, hourly_count}
use mx2_sandbox.Server.Routes.{Request, serve_all}
use mx2_sandbox.Server.Routes.Requests.{InOrder, serve_all-Holds}

-- The limit is `n`, and no stored time lies behind `now`.
record Past (n now : ℕ) (e : Engine) : Type 0 where
  limit : e.quota_limit ≡ n
  past : (key : Str × Str) → All (λ t. t ≤ now) (history_of key e)

All-later :
    (now later : ℕ) (xs : List ℕ) → now ≤ later → All (λ t. t ≤ now) xs → All (λ t. t ≤ later) xs
All-later now later [] h a = tt
All-later now later (x ∷ xs) h (k, a) = (omega arith, All-later now later xs h a)

All-select :
    (p : ℕ → Bool) (now : ℕ) (xs : List ℕ)
    → All (λ t. t ≤ now) xs
    → All (λ t. t ≤ now) (select p xs)
All-select p now [] a = tt
All-select p now (x ∷ xs) (k, a) = ground (arith, All-select p now xs a)

All-sent_by :
    (key : Str × Str) (s r : Str) (now : ℕ) → All (λ t. t ≤ now) (sent_by key (recorded s r now))
All-sent_by key s r now = ground arith

Past-later : (n now later : ℕ) (e : Engine) → now ≤ later → Past n now e → Past n later e
Past-later n now later e h p = record {
  limit = p.limit;
  past = λ key. All-later now later (history_of key e) h (p.past key);
}

Past-same : (n now : ℕ) (a b : Engine) → SameQuota a b → Past n now a → Past n now b
Past-same n now a b (limit, history) p = record {
  limit = limit ∙ p.limit;
  past = λ key. rw (history_of-same key a b history) (p.past key);
}

Past-count :
    (n : ℕ) (s r : Str) (now : ℕ) (e : Engine)
    → Past n now e
    → Past n now (get_hourly_count s r now e).1
Past-count n s r now e p = record {
  limit = quota_limit-get_hourly_count s r now e ∙ p.limit;
  past = λ key.
      rw (history_of-get_hourly_count key s r now e) (
        ground (arith, p.past key, All-select (is_recent now) now (history_of key e) (p.past key)));
}

Past-record :
    (n : ℕ) (s r : Str) (now : ℕ) (e : Engine)
    → Past n now e
    → (get_hourly_count s r now e).0 < e.quota_limit
    → Past n now (record_message s r now (get_hourly_count s r now e).1)
Past-record n s r now e p room = record {
  limit = quota_limit-record_message s r now _ ∙ (Past-count n s r now e p).limit;
  past = λ key. rw (history_of-record_message key s r now (get_hourly_count s r now e).1) (
      All-append (λ t. t ≤ now) _ _ ((Past-count n s r now e p).past key)
        (All-sent_by key s r now));
}

past_times : ℕ → QuotaInvariant
past_times n = record {
  Holds = Past n;
  later = Past-later n;
  same = Past-same n;
  counts = Past-count n;
  records = Past-record n;
}

none_recent :
    (last now : ℕ) (xs : List ℕ)
    → last + hour ≤ now
    → All (λ t. t ≤ last) xs
    → length (select (is_recent now) xs) ≡ 0
none_recent last now [] h a = refl
none_recent last now (x ∷ xs) h (k, a) = ground (arith, none_recent last now xs h a)

module _ (R : Runtime) (call : Call) where
  unlimited :
      (s : Submission) (d : Daemon)
      → 0 < d.anti_spam.quota_limit
      → hourly_count s call.now d.anti_spam ≡ 0
      → (submit R call s d).0.status ≢ 429
  unfolding submit empty_payload translation_failed send_error send_json
  unlimited s d room count = elim (Bool-cases (s.raw_smtp == [])) [
    | inl e ↦ rw (submit, e) (ground arith)
    | inr e ↦
        let filled : s.raw_smtp ≢ [] = ground arith in
        elim (Option-cases (evaluate_trust_grade R d.anti_spam (sender_of s) call.now)) [
          | inl e' ↦ rw (submit, e, e') (ground arith)
          | inr (trust, e') ↦ λ stopped.
              absurd (
                ground
                  (arith, room, count, (rate_limited_iff R call s trust d filled e').0 stopped))
        ]
  ]

  -- From a daemon without a history of sendings and with a limit above 0, after any sequence of
  -- requests whose clock does not run backwards: from an hour after their end on, no submission is
  -- answered with status 429.
  pub quota_recovers :
      (now last : ℕ) (requests : List (Call × Request)) (d : Daemon) (s : Submission)
      → d.anti_spam.quota_history ≡ []
      → 0 < d.anti_spam.quota_limit
      → InOrder now requests last
      → last + hour ≤ call.now
      → (submit R call s (serve_all R requests d)).0.status ≢ 429
  unfolding past_times
  quota_recovers now last requests d s new room h late =
      let e = (serve_all R requests d).anti_spam in
      let key =
        quota_key (route_of s.raw_smtp).sender_domain (route_of s.raw_smtp).recipient_domain in
      let p : Past d.anti_spam.quota_limit last e =
        serve_all-Holds R (past_times d.anti_spam.quota_limit) now last requests d h
          (record { limit = refl; past = λ k. rw (history_of_new k d.anti_spam new) tt }) in
      unlimited s (serve_all R requests d) (rw p.limit room)
        (count_lem _ _ call.now e ∙ none_recent last call.now (history_of key e) late (p.past key))
