-- ===== src/Server/Routes/Quota.antt =====
-- The send quota of src/anti_spam.py under any sequence of requests to src/web_server.py.
use mx2_sandbox.Base.{ℕ, ◌≤◌, ◌<◌, ◌≡◌, ◌∙◌, refl, Str, List, [], arith}
use mx2_sandbox.Runtime.{Runtime}
use mx2_sandbox.AntiSpam.{Engine}
use mx2_sandbox.AntiSpam.Quota.{get_hourly_count, record_message, quota_key}
use mx2_sandbox.AntiSpam.Quota.Invariant.{QuotaInvariant, SameQuota}
use mx2_sandbox.AntiSpam.Quota.Limit.{
  Within, Within-later, Within-history, Within-get_hourly_count, Within-record_message, count-count,
  quota_limit-get_hourly_count, quota_limit-record_message,
}
use mx2_sandbox.AntiSpam.Quota.Window.{count_lem, history_of_new}
use mx2_sandbox.Server.{Daemon, Call}
use mx2_sandbox.Server.Routes.{Request, serve_all}
use mx2_sandbox.Server.Routes.Requests.{InOrder, serve_all-Holds}

-- The limit is `n`, and from `now` on no pair has more messages within an hour.
record Bounded (n now : ℕ) (e : Engine) : Type 0 where
  limit : e.quota_limit ≡ n
  within : Within n now e

Bounded-later : (n now later : ℕ) (e : Engine) → now ≤ later → Bounded n now e → Bounded n later e
Bounded-later n now later e h b = record {
  limit = b.limit;
  within = Within-later n now later e h b.within;
}

Bounded-same : (n now : ℕ) (a b : Engine) → SameQuota a b → Bounded n now a → Bounded n now b
Bounded-same n now a b (limit, history) h = record {
  limit = limit ∙ h.limit;
  within = Within-history n now a b history h.within;
}

Bounded-count :
    (n : ℕ) (s r : Str) (now : ℕ) (e : Engine)
    → Bounded n now e
    → Bounded n now (get_hourly_count s r now e).1
Bounded-count n s r now e b = record {
  limit = quota_limit-get_hourly_count s r now e ∙ b.limit;
  within = Within-get_hourly_count n now s r e b.within;
}

Bounded-record :
    (n : ℕ) (s r : Str) (now : ℕ) (e : Engine)
    → Bounded n now e
    → (get_hourly_count s r now e).0 < e.quota_limit
    → Bounded n now (record_message s r now (get_hourly_count s r now e).1)
Bounded-record n s r now e b room = record {
  limit = quota_limit-record_message s r now _ ∙ (Bounded-count n s r now e b).limit;
  within =
      Within-record_message n now s r _ (Bounded-count n s r now e b).within
        (rw (count-count s r now e) (ground (arith, b.limit)));
}

bounded : ℕ → QuotaInvariant
bounded n = record {
  Holds = Bounded n;
  later = Bounded-later n;
  same = Bounded-same n;
  counts = Bounded-count n;
  records = Bounded-record n;
}

Within-new : (n now : ℕ) (e : Engine) → e.quota_history ≡ [] → Within n now e
Within-new n now e new key t h = rw (history_of_new key e new) (omega arith)

-- From a daemon without a history of sendings, after any sequence of requests whose clock does not
-- run backwards, the hourly count of every pair of domains is at most the limit.
pub quota_never_exceeded :
    (R : Runtime) (now last : ℕ) (requests : List (Call × Request)) (d : Daemon) (s r : Str)
    → d.anti_spam.quota_history ≡ []
    → InOrder now requests last
    → (get_hourly_count s r last (serve_all R requests d).anti_spam).0 ≤ d.anti_spam.quota_limit
unfolding bounded
quota_never_exceeded R now last requests d s r new h =
    rw (count_lem s r last (serve_all R requests d).anti_spam) (
      (serve_all-Holds R (bounded d.anti_spam.quota_limit) now last requests d h (record {
        limit = refl;
        within = Within-new d.anti_spam.quota_limit now d.anti_spam new;
      })).within
        (quota_key s r) last (omega arith))
