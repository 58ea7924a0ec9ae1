-- ===== src/AntiSpam/Queue.antt =====
-- The holding queue of src/anti_spam.py: with a storage engine its methods are called, without one
-- the queue and the whitelist are lists in memory.
pub mod Laws
pub mod Approval
pub mod Refinement
use mx2_sandbox.Base.{
  ℕ, Str, str, Bool, true, false, Option, none, some, List, [], ◌∷◌, ◌++◌, map, any, ◌==◌, nat_eq,
  list_eq, if◌then◌else◌,
}
use mx2_sandbox.Base.Text.{lower, strip, split, last_of_split}
use mx2_sandbox.Json.{Json, text, num, obj, end, dict}
use mx2_sandbox.Runtime.{Runtime}
use mx2_sandbox.Storage
use mx2_sandbox.Storage.{Database}
use mx2_sandbox.AntiSpam.{Engine, Held}

-- the dict of a message in memory; its time is the number of microseconds
unfoldable pub held_json : Held → Json
held_json m = dict (
    (str "messageId", text m.message_id)
    ∷ (str "sender", text m.sender)
    ∷ (str "subject", text m.subject)
    ∷ (str "envelope", m.envelope)
    ∷ (str "timestamp", num m.timestamp)
    ∷ [])

abbrev pub has_id : Str → Held → Bool
has_id id m = m.message_id == id

-- the loop that finds the first message of an id, and `pop`
unfoldable pub pop_message : Str → List Held → Option (Held × List Held)
pop_message id [] = none
pop_message id (m ∷ queue) =
    let rest : Option (Held × List Held) = elim (pop_message id queue) [
      | none ↦ none
      | some (found, q) ↦ some (found, m ∷ q)
    ] in
    if has_id id m then some (m, queue) else rest

-- The identities that the approval of a message in memory adds.
unfoldable pub approved_domain : Str → Str
approved_domain sender = strip (lower (last_of_split (split b'@' sender)))

module _ (R : Runtime) where
  -- the property `holding_queue`
  unfoldable pub holding_queue : Engine → List Json
  holding_queue e = elim e.storage_engine [
    | none ↦ map held_json e.holding
    | some db ↦ Storage.get_holding_queue R db
  ]

  -- `quarantine_message`
  unfoldable pub quarantine_message : Str → Str → Str → Json → ℕ → Engine → Engine
  quarantine_message id sender subject envelope now e = elim e.storage_engine [
    | none ↦ if any (has_id id) e.holding then e else record e {
      holding =
          e.holding
          ++ record {
            message_id = id;
            sender = sender;
            subject = subject;
            envelope = envelope;
            timestamp = now;
          }
            ∷ [];
    }
    | some db ↦ record e {
      storage_engine = some (Storage.quarantine_message R id sender subject envelope now db);
    }
  ]

  -- `approve_quarantined_sender`
  unfoldable pub approve_quarantined_sender : Str → ℕ → Engine → (Bool × Json) × Engine
  approve_quarantined_sender id now e = elim e.storage_engine [
    | none ↦ elim (pop_message id e.holding) [
      | none ↦ ((false, obj end), e)
      | some (m, queue) ↦ (
        (true, held_json m),
        record e {
          holding = queue;
          whitelisted = strip (lower m.sender) ∷ approved_domain m.sender ∷ e.whitelisted;
        },
      )
    ]
    | some db ↦
        let (result, db') = Storage.approve_quarantined_sender R id now db in
        (result, record e { storage_engine = some db' })
  ]

-- `reject_quarantined_sender`
unfoldable pub reject_quarantined_sender : Str → Engine → Bool × Engine
reject_quarantined_sender id e = elim e.storage_engine [
  | none ↦ elim (pop_message id e.holding) [
    | none ↦ (false, e)
    | some (m, queue) ↦ (true, record e { holding = queue })
  ]
  | some db ↦
      let (removed, db') = Storage.reject_quarantined_sender id db in
      (removed, record e { storage_engine = some db' })
]
