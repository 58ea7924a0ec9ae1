-- ===== src/Storage.antt =====
-- src/storage.py: the SQLite storage engine, as a value that the methods take and return. A call
-- reads the clock once, and is given the reading as `now`.
pub mod Whitelist
pub mod Queue
use mx2_sandbox.Base.{
  ℕ, ◌<◌, Str, str, Bool, true, false, Option, none, some, List, [], ◌∷◌, map, ltb, ◌==◌, list_eq,
  nat_eq, if◌then◌else◌,
}
use mx2_sandbox.Base.Text.{lower, strip, split, first_of_split, last_of_split}
use mx2_sandbox.Json.{Json, null, num, text, obj, end, dict}
use mx2_sandbox.Runtime.{Runtime}
use mx2_sandbox.Sql.{select_one, delete_where, count_where, insert_or_replace, order_desc}

-- a row of quarantine_queue
pub record QueueRow : Type 0 where
  pub msg_id : Str
  pub sender : Str
  pub subject : Str
  pub envelope_json : Str
  pub timestamp : ℕ

-- a row of whitelists
pub record WhitelistRow : Type 0 where
  pub identity : Str
  pub added_at : ℕ

-- a row of cas_index
pub record CasRow : Type 0 where
  pub sha256 : Str
  pub cas_uri : Str
  pub size : ℕ
  pub created_at : ℕ

-- The database. No method touches the table social_graph.
pub record Database : Type 0 where
  pub quarantine_queue : List QueueRow
  pub whitelists : List WhitelistRow
  pub cas_index : List CasRow

-- `_init_db` over a new file
abbrev pub init_db : Database
init_db = record { quarantine_queue = []; whitelists = []; cas_index = [] }

-- a message of the holding queue, as the engines hand it out
abbrev pub held_message : Str → Str → Str → ℕ → Json → Json
held_message message_id sender subject timestamp envelope = dict (
    (str "messageId", text message_id)
    ∷ (str "sender", text sender)
    ∷ (str "subject", text subject)
    ∷ (str "timestamp", num timestamp)
    ∷ (str "envelope", envelope)
    ∷ [])

-- `add_whitelist`
unfoldable pub add_whitelist : Str → ℕ → Database → Database
add_whitelist identity now db =
    let clean = lower (strip identity) in
    if clean == [] then db else record db {
      whitelists =
          insert_or_replace (λ r. r.identity) (record { identity = clean; added_at = now })
            db.whitelists;
    }

-- `is_whitelisted`
unfoldable pub is_whitelisted : Str → Database → Bool
is_whitelisted identity db =
    elim (select_one (λ r. r.identity) (lower (strip identity)) db.whitelists) [
      | none ↦ false
      | some r ↦ true
    ]

-- `get_whitelisted_set`, as the list of its members
unfoldable pub get_whitelisted_set : Database → List Str
get_whitelisted_set db = map (λ r. r.identity) db.whitelists

-- the domain of an address, as `approve_quarantined_sender` reads it
unfoldable pub address_domain : Str → Str
address_domain sender =
    lower (strip (first_of_split (split b'>' (last_of_split (split b'@' sender)))))

module _ (R : Runtime) where
  -- `json.loads` with `{}` for what it refuses
  unfoldable pub load_envelope : Str → Json
  load_envelope s = elim (R.loads s) [ none ↦ obj end | some v ↦ v ]

  -- `quarantine_message`
  unfoldable pub quarantine_message : Str → Str → Str → Json → ℕ → Database → Database
  quarantine_message msg_id sender subject envelope now db = record db {
    quarantine_queue =
        insert_or_replace (λ r. r.msg_id)
          (record {
            msg_id = msg_id;
            sender = sender;
            subject = subject;
            envelope_json = R.dumps envelope;
            timestamp = now;
          })
          db.quarantine_queue;
  }

  unfoldable pub row_message : QueueRow → Json
  unfolding load_envelope
  row_message r =
      held_message r.msg_id r.sender r.subject r.timestamp (load_envelope r.envelope_json)

  -- `get_holding_queue`
  unfoldable pub get_holding_queue : Database → List Json
  unfolding row_message
  get_holding_queue db = map row_message (order_desc (λ r. r.timestamp) db.quarantine_queue)

  -- what `approve_quarantined_sender` does with the row that it found
  unfoldable pub approve_row : Str → QueueRow → ℕ → Database → (Bool × Json) × Database
  unfolding add_whitelist address_domain load_envelope
  approve_row msg_id row now db =
      let db' = add_whitelist row.sender now (add_whitelist (address_domain row.sender) now db) in
      (
        (
          true,
          dict (
              (str "messageId", text msg_id)
              ∷ (str "sender", text row.sender)
              ∷ (str "envelope", load_envelope row.envelope_json)
              ∷ []),
        ),
        record db' { quarantine_queue = delete_where (λ r. r.msg_id) msg_id db'.quarantine_queue },
      )

  -- `approve_quarantined_sender`
  unfoldable pub approve_quarantined_sender : Str → ℕ → Database → (Bool × Json) × Database
  unfolding approve_row
  approve_quarantined_sender msg_id now db =
      elim (select_one (λ r. r.msg_id) msg_id db.quarantine_queue) [
        | none ↦ ((false, null), db)
        | some row ↦ approve_row msg_id row now db
      ]

-- `reject_quarantined_sender`
unfoldable pub reject_quarantined_sender : Str → Database → Bool × Database
reject_quarantined_sender msg_id db = (
  ltb 0 (count_where (λ r. r.msg_id) msg_id db.quarantine_queue),
  record db { quarantine_queue = delete_where (λ r. r.msg_id) msg_id db.quarantine_queue },
)

-- `record_cas_entry`
unfoldable pub record_cas_entry : Str → Str → ℕ → ℕ → Database → Database
record_cas_entry hash cas_uri size now db = record db {
  cas_index =
      insert_or_replace (λ r. r.sha256)
        (record { sha256 = hash; cas_uri = cas_uri; size = size; created_at = now }) db.cas_index;
}

-- `get_cas_entry`
unfoldable pub get_cas_entry : Str → Database → Option CasRow
get_cas_entry hash db = select_one (λ r. r.sha256) hash db.cas_index
