-- ===== src/Server/Routes/Histories.antt =====
-- The stored histories of sendings of src/anti_spam.py under requests to src/web_server.py: how
-- long they grow.
use mx2_sandbox.Base.{
  ℕ, ◌≤◌, ◌<◌, ◌≡◌, ◌∙◌, refl, Str, Bool, List, [], ◌∷◌, length, length-append, select, arith,
  nat_eq, list_eq, pair_eq,
}
use mx2_sandbox.Runtime.{Runtime}
use mx2_sandbox.AntiSpam.{Engine}
use mx2_sandbox.AntiSpam.Quota.{is_recent, get_hourly_count, record_message, history_of}
use mx2_sandbox.AntiSpam.Quota.Invariant.{QuotaInvariant, SameQuota}
use mx2_sandbox.AntiSpam.Quota.Limit.{
  quota_limit-get_hourly_count, quota_limit-record_message, history_of-same,
}
use mx2_sandbox.AntiSpam.Quota.Window.{
  count_lem, history_of_new, history_of-record_message, history_of-get_hourly_count,
}
use mx2_sandbox.Server.{Daemon, Call}
use mx2_sandbox.Server.Routes.{Request, serve, serve_all}
use mx2_sandbox.Server.Routes.Requests.{serve-Holds}

-- The limit is `n`, and no stored history is longer.
record Short (n now : ℕ) (e : Engine) : Type 0 where
  limit : e.quota_limit ≡ n
  short : (key : Str × Str) → length (history_of key e) ≤ n

length-select : (p : ℕ → Bool) (xs : List ℕ) → length (select p xs) ≤ length xs
length-select p [] = omega arith
length-select p (x ∷ xs) = ground (arith, length-select p xs)

Short-same : (n now : ℕ) (a b : Engine) → SameQuota a b → Short n now a → Short n now b
Short-same n now a b (limit, history) h = record {
  limit = limit ∙ h.limit;
  short = λ key. rw (history_of-same key a b history) (h.short key);
}

Short-count :
    (n : ℕ) (s r : Str) (now : ℕ) (e : Engine)
    → Short n now e
    → Short n now (get_hourly_count s r now e).1
Short-count n s r now e h = record {
  limit = quota_limit-get_hourly_count s r now e ∙ h.limit;
  short = λ key.
      rw (history_of-get_hourly_count key s r now e)
        (ground (arith, h.short key, length-select (is_recent now) (history_of key e)));
}

-- a history behind a count and a record
length-counted :
    (key : Str × Str) (s r : Str) (now : ℕ) (e : Engine) (n : ℕ)
    → length (history_of key e) ≤ n
    → (get_hourly_count s r now e).0 < n
    → length (history_of key (record_message s r now (get_hourly_count s r now e).1)) ≤ n
length-counted key s r now e n h room =
    rw
      (
        history_of-record_message key s r now (get_hourly_count s r now e).1,
        length-append,
        history_of-get_hourly_count key s r now e,
      )
      (ground (arith, h, room, count_lem s r now e))

Short-record :
    (n : ℕ) (s r : Str) (now : ℕ) (e : Engine)
    → Short n now e
    → (get_hourly_count s r now e).0 < e.quota_limit
    → Short n now (record_message s r now (get_hourly_count s r now e).1)
Short-record n s r now e h room = record {
  limit = quota_limit-record_message s r now _ ∙ (Short-count n s r now e h).limit;
  short = λ key. length-counted key s r now e n (h.short key) (ground (arith, h.limit));
}

-- The time is not looked at.
Short-any : (n now later : ℕ) (e : Engine) → Short n now e → Short n later e
Short-any n now later e h = record { limit = h.limit; short = h.short }

short_histories : ℕ → QuotaInvariant
short_histories n = record {
  Holds = Short n;
  later = λ now later e h. Short-any n now later e;
  same = Short-same n;
  counts = Short-count n;
  records = Short-record n;
}

Short-serve_all :
    (R : Runtime) (n now : ℕ) (requests : List (Call × Request)) (d : Daemon)
    → Short n now d.anti_spam
    → Short n now (serve_all R requests d).anti_spam
unfolding serve_all short_histories
Short-serve_all R n now [] d h = h
Short-serve_all R n now ((call, q) ∷ requests) d h =
    Short-serve_all R n now requests (serve R call q d).1 (
      Short-any n call.now now _
        (serve-Holds R call (short_histories n) q d (Short-any n now call.now d.anti_spam h)))

-- From a daemon without a history of sendings, after any sequence of requests, whatever the clock
-- shows, no stored history is longer than the limit.
pub history_never_longer :
    (R : Runtime) (requests : List (Call × Request)) (d : Daemon) (key : Str × Str)
    → d.anti_spam.quota_history ≡ []
    → length (history_of key (serve_all R requests d).anti_spam) ≤ d.anti_spam.quota_limit
history_never_longer R requests d key new =
    (Short-serve_all R d.anti_spam.quota_limit 0 requests d (record {
      limit = refl;
      short = λ k. rw (history_of_new k d.anti_spam new) (omega arith);
    })).short
      key
