-- ===== src/AntiSpam/Quota/Window.antt =====
-- The count of src/anti_spam.py against the list of all the messages that were recorded.
use mx2_sandbox.Base.{
  ℕ, ◌≤◌, ◌≡◌, refl, ◌∙◌, ap, Str, List, [], ◌∷◌, ◌++◌, length, select, select-append, All, arith,
  ◌==◌, nat_eq, list_eq, pair_eq, if◌then◌else◌,
}
use mathlib.Core.List.{append_assoc, append-nil}
use mx2_sandbox.Base.Dict.{lookup, lookup-insert}
use mx2_sandbox.AntiSpam.{Engine}
use mx2_sandbox.AntiSpam.Quota.{is_recent, quota_key, history_of, record_message, get_hourly_count}

-- the calls of the two methods, with the time of each
pub data Event : Type 0 where
  recorded counted : Str → Str → ℕ → Event

abbrev pub time_of : Event → ℕ
time_of (recorded s r t) = t
time_of (counted s r t) = t

pub apply : Event → Engine → Engine
apply (recorded s r t) e = record_message s r t e
apply (counted s r t) e = (get_hourly_count s r t e).1

pub run : List Event → Engine → Engine
unfolding apply
run [] e = e
run (v ∷ events) e = run events (apply v e)

-- the times at which an event records a message for a key
abbrev pub sent_by : Str × Str → Event → List ℕ
sent_by key (recorded s r t) = if key == quota_key s r then t ∷ [] else []
sent_by key (counted s r t) = []

abbrev pub sent : Str × Str → List Event → List ℕ
sent key [] = []
sent key (v ∷ events) = sent_by key v ++ sent key events

pub history_of-record_message :
    (key : Str × Str) (s r : Str) (t : ℕ) (e : Engine)
    → history_of key (record_message s r t e) ≡ history_of key e ++ sent_by key (recorded s r t)
history_of-record_message key s r t e =
    unfold history_of record_message in
    ground (
      arith,
      lookup-insert key (quota_key s r) (history_of (quota_key s r) e ++ t ∷ []) e.quota_history,
      append-nil (history_of key e),
    )

pub history_of-get_hourly_count :
    (key : Str × Str) (s r : Str) (t : ℕ) (e : Engine)
    → history_of key (get_hourly_count s r t e).1
      ≡ (if key == quota_key s r then select (is_recent t) (history_of key e) else history_of key e)
history_of-get_hourly_count key s r t e =
    unfold history_of get_hourly_count in
    ground (
      arith,
      lookup-insert key (quota_key s r) (select (is_recent t) (history_of (quota_key s r) e))
          e.quota_history,
    )

pub count_lem :
    (s r : Str) (t : ℕ) (e : Engine)
    → (get_hourly_count s r t e).0 ≡ length (select (is_recent t) (history_of (quota_key s r) e))
count_lem s r t e = unfold history_of get_hourly_count in ground arith

-- What an earlier count prunes is no longer recent.
pub select-select :
    (now t : ℕ) (xs : List ℕ)
    → t ≤ now
    → select (is_recent now) (select (is_recent t) xs) ≡ select (is_recent now) xs
select-select now t [] h = refl
select-select now t (x ∷ xs) h = ground (arith, select-select now t xs h)

apply_recent :
    (key : Str × Str) (now : ℕ) (v : Event) (e : Engine)
    → time_of v ≤ now
    → select (is_recent now) (history_of key (apply v e))
      ≡ select (is_recent now) (history_of key e ++ sent_by key v)
unfolding apply
apply_recent key now (recorded s r t) e h =
    ap (select (is_recent now)) (history_of-record_message key s r t e)
apply_recent key now (counted s r t) e h =
    rw (append-nil, history_of-get_hourly_count key s r t e)
      (ground (arith, select-select now t (history_of key e)))

run_recent_step :
    (key : Str × Str) (now : ℕ) (v : Event) (events : List Event) (e : Engine)
    → time_of v ≤ now
    → select (is_recent now) (history_of key (run events (apply v e)))
      ≡ select (is_recent now) (history_of key (apply v e) ++ sent key events)
    → select (is_recent now) (history_of key (run (v ∷ events) e))
      ≡ select (is_recent now) (history_of key e ++ sent key (v ∷ events))
run_recent_step key now v events e k ih =
    unfold run in
    ih ∙ (rw (select-append, apply_recent key now v e k, ← select-append, append_assoc) refl)

pub history_of_new : (key : Str × Str) (e : Engine) → e.quota_history ≡ [] → history_of key e ≡ []
unfolding history_of
history_of_new key e new = rw (new, history_of) (unfold lookup in refl)

run_recent :
    (key : Str × Str) (now : ℕ) (events : List Event) (e : Engine)
    → All (λ v. time_of v ≤ now) events
    → select (is_recent now) (history_of key (run events e))
      ≡ select (is_recent now) (history_of key e ++ sent key events)
run_recent key now [] e h = unfold run in rw append-nil
run_recent key now (v ∷ events) e (k, h) =
    run_recent_step key now v events e k (run_recent key now events (apply v e) h)

-- From a new engine, the hourly count of a pair at any time that no call so far lies after is the
-- number of messages that were recorded for the pair within the hour before that time.
pub hourly_count_exact :
    (s r : Str) (now : ℕ) (events : List Event) (e : Engine)
    → All (λ v. time_of v ≤ now) events
    → e.quota_history ≡ []
    → (get_hourly_count s r now (run events e)).0
      ≡ length (select (is_recent now) (sent (quota_key s r) events))
hourly_count_exact s r now events e h new =
    count_lem s r now (run events e)
    ∙ ap length (
        run_recent (quota_key s r) now events e h
        ∙ ap (λ (xs : List ℕ). select (is_recent now) (xs ++ sent (quota_key s r) events))
            (history_of_new (quota_key s r) e new))
