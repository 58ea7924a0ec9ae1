-- ===== src/AntiSpam/Quota/Invariant.antt =====
-- What a property of the quota in src/anti_spam.py must satisfy, so that the requests to
-- src/web_server.py keep it.
use mx2_sandbox.Base.{ℕ, ◌≤◌, ◌<◌, ◌≡◌, Str}
use mx2_sandbox.AntiSpam.{Engine}
use mx2_sandbox.AntiSpam.Quota.{record_message, get_hourly_count}

-- Both fields that the quota depends on are as they were.
abbrev pub SameQuota : Engine → Engine → Type 0
SameQuota a b = (b.quota_limit ≡ a.quota_limit) × (b.quota_history ≡ a.quota_history)

-- A sending is recorded behind a count that is below the limit.
pub record QuotaInvariant : Type 1 where
  pub Holds : ℕ → Engine → Type 0
  pub later : (now later : ℕ) (e : Engine) → now ≤ later → Holds now e → Holds later e
  pub same : (now : ℕ) (a b : Engine) → SameQuota a b → Holds now a → Holds now b
  pub counts :
      (s r : Str) (now : ℕ) (e : Engine) → Holds now e → Holds now (get_hourly_count s r now e).1
  pub records :
      (s r : Str) (now : ℕ) (e : Engine)
      → Holds now e
      → (get_hourly_count s r now e).0 < e.quota_limit
      → Holds now (record_message s r now (get_hourly_count s r now e).1)
