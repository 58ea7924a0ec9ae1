-- ===== src/AntiSpam/Quota/Limit.antt =====
-- A bound on the hourly counts of all pairs, and the two methods of the quota in src/anti_spam.py.
use mx2_sandbox.Base.{
  ℕ, ◌≤◌, ◌<◌, ◌≡◌, refl, ◌∙◌, Str, List, [], ◌∷◌, length, length-append, select, select-append,
  arith, ◌==◌, nat_eq, list_eq, pair_eq, if◌then◌else◌,
}
use mx2_sandbox.AntiSpam.{Engine}
use mx2_sandbox.AntiSpam.Quota.{is_recent, quota_key, history_of, record_message, get_hourly_count}
use mx2_sandbox.AntiSpam.Quota.Window.{
  history_of-record_message, history_of-get_hourly_count, count_lem, select-select, sent_by,
  recorded,
}

-- From `now` on no pair of domains has more than `n` messages within an hour.
abbrev pub Within : ℕ → ℕ → Engine → Type 0
Within n now e =
    (key : Str × Str) (t : ℕ) → now ≤ t → length (select (is_recent t) (history_of key e)) ≤ n

pub Within-later : (n now later : ℕ) (e : Engine) → now ≤ later → Within n now e → Within n later e
Within-later n now later e h w key t k = w key t (omega arith)

fewer_later :
    (t later : ℕ) (xs : List ℕ)
    → t ≤ later
    → length (select (is_recent later) xs) ≤ length (select (is_recent t) xs)
fewer_later t later [] h = omega arith
fewer_later t later (x ∷ xs) h = ground (arith, fewer_later t later xs h)

pub Within-get_hourly_count :
    (n now : ℕ) (s r : Str) (e : Engine)
    → Within n now e
    → Within n now (get_hourly_count s r now e).1
Within-get_hourly_count n now s r e w key t h =
    rw (history_of-get_hourly_count key s r now e)
      (ground (arith, select-select t now (history_of key e) h, w key t h))

length-sent_by :
    (key : Str × Str) (s r : Str) (t u : ℕ)
    → length (select (is_recent u) (sent_by key (recorded s r t)))
      ≤ (if key == quota_key s r then 1 else 0)
length-sent_by key s r t u = ground arith

pub Within-record_message :
    (n now : ℕ) (s r : Str) (e : Engine)
    → Within n now e
    → (get_hourly_count s r now e).0 < n
    → Within n now (record_message s r now e)
Within-record_message n now s r e w room key t h =
    rw (history_of-record_message key s r now e, select-append, length-append)
      (ground (
        arith,
        length-sent_by key s r now t,
        w key t h,
        fewer_later now t (history_of key e) h,
        count_lem s r now e,
      ))

-- a count right after a count
pub count-count :
    (s r : Str) (now : ℕ) (e : Engine)
    → (get_hourly_count s r now (get_hourly_count s r now e).1).0 ≡ (get_hourly_count s r now e).0
count-count s r now e =
    count_lem s r now (get_hourly_count s r now e).1
    ∙ (rw (history_of-get_hourly_count (quota_key s r) s r now e, count_lem s r now e)
        (ground (arith, select-select now now (history_of (quota_key s r) e) (omega arith))))

pub quota_limit-get_hourly_count :
    (s r : Str) (now : ℕ) (e : Engine) → (get_hourly_count s r now e).1.quota_limit ≡ e.quota_limit
unfolding get_hourly_count
quota_limit-get_hourly_count s r now e = ground arith

pub quota_limit-record_message :
    (s r : Str) (now : ℕ) (e : Engine) → (record_message s r now e).quota_limit ≡ e.quota_limit
unfolding record_message
quota_limit-record_message s r now e = refl

pub history_of-same :
    (key : Str × Str) (e e' : Engine)
    → e'.quota_history ≡ e.quota_history
    → history_of key e' ≡ history_of key e
unfolding history_of
history_of-same key e e' same = rw (same, history_of) refl

-- The bound looks at the history only.
pub Within-history :
    (n now : ℕ) (e e' : Engine)
    → e'.quota_history ≡ e.quota_history
    → Within n now e
    → Within n now e'
Within-history n now e e' same w key t h = rw (history_of-same key e e' same) (w key t h)
