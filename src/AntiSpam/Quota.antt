-- ===== src/AntiSpam/Quota.antt =====
-- `record_message` and `get_hourly_count` of src/anti_spam.py.
pub mod Window
pub mod Limit
pub mod Invariant
use mx2_sandbox.Base.{
  ℕ, ◌+◌, ◌*◌, ◌^◌, Str, Bool, Option, none, some, List, [], ◌∷◌, ◌++◌, ltb, length, select, ◌==◌,
  nat_eq, list_eq, pair_eq,
}
use mx2_sandbox.Base.Dict.{lookup, insert}
use mx2_sandbox.Base.Text.{lower, strip}
use mx2_sandbox.AntiSpam.{Engine}

-- 3600.0 seconds; a tick is a microsecond
abbrev pub hour : ℕ
hour = 3600 * 10 ^ 6

-- the key of a pair of domains
unfoldable pub quota_key : Str → Str → Str × Str
quota_key sender_domain recipient_domain =
    (strip (lower sender_domain), strip (lower recipient_domain))

unfoldable pub history_of : Str × Str → Engine → List ℕ
history_of key e = elim (lookup key e.quota_history) [ none ↦ [] | some times ↦ times ]

-- `record_message`
unfoldable pub record_message : Str → Str → ℕ → Engine → Engine
unfolding quota_key history_of
record_message sender_domain recipient_domain now e =
    let key = quota_key sender_domain recipient_domain in
    record e { quota_history = insert key (history_of key e ++ now ∷ []) e.quota_history }

-- `t > now - 3600.0`
abbrev pub is_recent : ℕ → ℕ → Bool
is_recent now t = ltb now (t + hour)

-- `get_hourly_count`
unfoldable pub get_hourly_count : Str → Str → ℕ → Engine → ℕ × Engine
unfolding quota_key
get_hourly_count sender_domain recipient_domain now e =
    let key = quota_key sender_domain recipient_domain in
    elim (lookup key e.quota_history) [
      | none ↦ (0, e)
      | some times ↦
          let history = select (is_recent now) times in
          (length history, record e { quota_history = insert key history e.quota_history })
    ]
