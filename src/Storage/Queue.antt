-- ===== src/Storage/Queue.antt =====
-- The quarantine queue of src/storage.py.
use mathlib.Core.List.{Perm}
use mx2_sandbox.Base.{
  ℕ, ◌≡◌, refl, ◌∙◌, Str, str, Bool, true, false, not, ◌&&◌, ◌||◌, Option, none, some, List, [],
  ◌∷◌, map, arith, Option-cases, inl, inr, ◌==◌, nat_eq, list_eq, if◌then◌else◌,
}
use mx2_sandbox.Json.{Json, text, dict}
use mx2_sandbox.Runtime.{Runtime, IsLawful}
use mx2_sandbox.Sql.{select_one, order_desc}
use mx2_sandbox.Storage.Whitelist.{clean, is_whitelisted-add_whitelist}
use mx2_sandbox.Sql.Laws.{select_one-insert_or_replace, select_one-delete_where, count_where-pos}
use mx2_sandbox.Sql.Order.{Descending, order_desc-Descending, order_desc-perm}
use mx2_sandbox.Storage.{
  Database, QueueRow, add_whitelist, is_whitelisted, address_domain, quarantine_message,
  row_message, load_envelope, get_holding_queue, approve_row, approve_quarantined_sender,
  reject_quarantined_sender,
}

-- the row of a message id
abbrev pub find_message : Str → Database → Option QueueRow
find_message id db = select_one (λ r. r.msg_id) id db.quarantine_queue

quarantine_queue-add_whitelist :
    (i : Str) (now : ℕ) (db : Database)
    → (add_whitelist i now db).quarantine_queue ≡ db.quarantine_queue
unfolding add_whitelist
quarantine_queue-add_whitelist i now db = ground arith

pub if_self : {A : Type 0} (i : Str) (x y : A) → (if i == i then x else y) ≡ x
if_self i x y = ground arith

absent_delete :
    (id j : Str) (db : Database)
    → find_message id db ≡ none
    → find_message j db ≡ (if j == id then none else find_message j db)
absent_delete id j db absent = ground arith

-- A rejection removes the message of its id and no other, and reports whether there was one.
pub reject_lem :
    (id : Str) (db : Database) (j : Str)
    → let (found, db') = reject_quarantined_sender id db in
      (found ≡ elim (find_message id db) [ none ↦ false | some row ↦ true ])
      × (find_message j db' ≡ (if j == id then none else find_message j db))
unfolding reject_quarantined_sender
reject_lem id db j = (
  count_where-pos (λ r. r.msg_id) id db.quarantine_queue,
  select_one-delete_where (λ r. r.msg_id) j id db.quarantine_queue,
)

is_whitelisted_of_eq :
    (j : Str) (a b : Database)
    → a.whitelists ≡ b.whitelists
    → is_whitelisted j a ≡ is_whitelisted j b
unfolding is_whitelisted
is_whitelisted_of_eq j a b e = rw e

module _ (R : Runtime) where
  pub load_envelope-dumps : IsLawful R → (v : Json) → load_envelope R (R.dumps v) ≡ v
  unfolding load_envelope
  load_envelope-dumps L v = rw (L.loads-dumps v, load_envelope)

  -- A quarantined message takes the place of one with its id, and no other message changes.
  pub find_message-quarantine_message :
      (id sender subject : Str) (envelope : Json) (now : ℕ) (db : Database) (j : Str)
      → find_message j (quarantine_message R id sender subject envelope now db) ≡ (
          if j == id
          then some (record {
            msg_id = id;
            sender = sender;
            subject = subject;
            envelope_json = R.dumps envelope;
            timestamp = now;
          })
          else find_message j db)
  unfolding quarantine_message
  find_message-quarantine_message id sender subject envelope now db j =
      select_one-insert_or_replace (λ r. r.msg_id) j _ db.quarantine_queue

  -- what the caller of an approval gets for a row
  abbrev pub released : Str → Option QueueRow → Bool × Json
  released id none = (false, Json.null)
  released id (some row) = (
    true,
    dict (
        (str "messageId", text id)
        ∷ (str "sender", text row.sender)
        ∷ (str "envelope", load_envelope R row.envelope_json)
        ∷ []),
  )

  -- An approval returns the stored message if the id is held, and says so if it is not.
  pub approve_result :
      (id : Str) (now : ℕ) (db : Database)
      → (approve_quarantined_sender R id now db).0 ≡ released id (find_message id db)
  unfolding approve_quarantined_sender approve_row
  approve_result id now db = ground arith

  approve_row_queue :
      (id : Str) (row : QueueRow) (now : ℕ) (db : Database) (j : Str)
      → find_message j (approve_row R id row now db).1
        ≡ (if j == id then none else find_message j db)
  unfolding approve_row
  approve_row_queue id row now db j = rw (
    select_one-delete_where,
    quarantine_queue-add_whitelist row.sender,
    quarantine_queue-add_whitelist (address_domain row.sender),
  )

  -- An approval removes the message of its id from the queue and no other.
  pub find_message-approve :
      (id : Str) (now : ℕ) (db : Database) (j : Str)
      → find_message j (approve_quarantined_sender R id now db).1
        ≡ (if j == id then none else find_message j db)
  unfolding approve_quarantined_sender
  find_message-approve id now db j = elim (Option-cases (find_message id db)) [
    | inl absent ↦ rw (absent, approve_quarantined_sender) (absent_delete id j db absent)
    | inr (row, held) ↦ rw (held, approve_quarantined_sender) (approve_row_queue id row now db j)
  ]

  -- It whitelists the sender and the sender's domain.
  pub whitelists-approve :
      (id : Str) (now : ℕ) (db : Database)
      → (approve_quarantined_sender R id now db).1.whitelists ≡ elim (find_message id db) [
        | none ↦ db.whitelists
        | some row ↦
            (add_whitelist row.sender now
              (add_whitelist (address_domain row.sender) now db)).whitelists
      ]
  unfolding approve_quarantined_sender approve_row
  whitelists-approve id now db = ground arith

  -- Over a lawful runtime: the approval of a message that was just quarantined returns its id, its
  -- sender and its envelope.
  approve-quarantine_message :
      IsLawful R
      → (id sender subject : Str) (envelope : Json) (now later : ℕ) (db : Database)
      → (approve_quarantined_sender R id later
          (quarantine_message R id sender subject envelope now db)).0
        ≡ (
          true,
          dict (
              (str "messageId", text id)
              ∷ (str "sender", text sender)
              ∷ (str "envelope", envelope)
              ∷ []),
        )
  approve-quarantine_message L id sender subject envelope now later db =
      rw (approve_result, find_message-quarantine_message, if_self)
        (rw (load_envelope-dumps L envelope))

  -- The holding queue is the list of all rows, each once, the newest first, as messages.
  pub get_holding_queue_lem :
      (db : Database)
      → (rows : List QueueRow) × (get_holding_queue R db ≡ map (row_message R) rows)
        × Perm rows db.quarantine_queue
        × Descending (λ r. r.timestamp) rows
  unfolding get_holding_queue
  get_holding_queue_lem db = (
    order_desc (λ r. r.timestamp) db.quarantine_queue,
    refl,
    order_desc-perm (λ r. r.timestamp) db.quarantine_queue,
    order_desc-Descending (λ r. r.timestamp) db.quarantine_queue,
  )

  whitelists-approve_held :
      (id : Str) (now : ℕ) (db : Database) (row : QueueRow)
      → find_message id db ≡ some row
      → (approve_quarantined_sender R id now db).1.whitelists
        ≡ (add_whitelist row.sender now
            (add_whitelist (address_domain row.sender) now db)).whitelists
  whitelists-approve_held id now db row held = ground (arith, whitelists-approve id now db)

  -- After the approval of a held message exactly its sender, the sender's domain, where these are
  -- not blank, and what was whitelisted before are whitelisted.
  pub is_whitelisted-approve :
      (id : Str) (now : ℕ) (db : Database) (row : QueueRow) (j : Str)
      → find_message id db ≡ some row
      → is_whitelisted j (approve_quarantined_sender R id now db).1 ≡ (
          (not (clean row.sender == []) && clean j == clean row.sender)
          || ((not (clean (address_domain row.sender) == [])
                && clean j == clean (address_domain row.sender))
              || is_whitelisted j db))
  is_whitelisted-approve id now db row j held =
      is_whitelisted_of_eq j (approve_quarantined_sender R id now db).1
        (add_whitelist row.sender now (add_whitelist (address_domain row.sender) now db))
        (whitelists-approve_held id now db row held)
      ∙ rw (is_whitelisted-add_whitelist row.sender j, is_whitelisted-add_whitelist) refl
