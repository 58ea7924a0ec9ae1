-- ===== src/AntiSpam/Queue/Approval.antt =====
-- Approvals of the queue of src/anti_spam.py and the whitelist that the grades are read from.
use mx2_sandbox.Base.{
  ℕ, ◌≡◌, ◌≢◌, refl, ◌∙◌, Str, true, false, none, some, [], ◌++◌, arith, nat_eq, list_eq, contains,
  Option-cases, inl, inr,
}
use mx2_sandbox.Base.Text.Laws.{strip-lower}
use mx2_sandbox.Json.{Json}
use mx2_sandbox.Runtime.{Runtime}
use mx2_sandbox.Storage
use mx2_sandbox.Storage.{
  Database, add_whitelist, is_whitelisted, address_domain, get_whitelisted_set,
}
use mx2_sandbox.Storage.Whitelist.{contains-get_whitelisted_set}
use mx2_sandbox.Storage.Queue.{
  find_message, find_message-quarantine_message, is_whitelisted-approve, if_self,
}
use mx2_sandbox.AntiSpam.{Engine, Held, whitelisted_senders}
use mx2_sandbox.AntiSpam.Queue.{quarantine_message, approve_quarantined_sender}
use mx2_sandbox.AntiSpam.Queue.Laws.{is_held, pop-append, contains-append}
use mx2_sandbox.AntiSpam.Grade.{Sender, clean, evaluate_trust_grade, is_on_whitelist, on_whitelist}

module _ (R : Runtime) where
  -- in memory
  whitelisted_memory :
      (id sender subject : Str) (envelope : Json) (now later : ℕ) (e : Engine)
      → e.storage_engine ≡ none
      → is_held id e ≡ false
      → contains
          (whitelisted_senders
            (approve_quarantined_sender R id later
              (quarantine_message R id sender subject envelope now e)).1)
          (clean sender)
        ≡ true
  unfolding whitelisted_senders approve_quarantined_sender quarantine_message
  whitelisted_memory id sender subject envelope now later e memory new =
      let m : Held = record {
        message_id = id;
        sender = sender;
        subject = subject;
        envelope = envelope;
        timestamp = now;
      } in
      ground (arith, pop-append id e.holding m)

  -- in the database
  whitelisted_stored :
      (id sender subject : Str) (envelope : Json) (now later : ℕ) (db : Database)
      → clean sender ≢ []
      → contains
          (get_whitelisted_set
            (Storage.approve_quarantined_sender R id later
              (Storage.quarantine_message R id sender subject envelope now db)).1)
          (clean sender)
        ≡ true
  whitelisted_stored id sender subject envelope now later db named =
      let db' = Storage.quarantine_message R id sender subject envelope now db in
      let row : Storage.QueueRow = record {
        msg_id = id;
        sender = sender;
        subject = subject;
        envelope_json = R.dumps envelope;
        timestamp = now;
      } in
      let held : find_message id db' ≡ some row =
        find_message-quarantine_message R id sender subject envelope now db id
        ∙ if_self id (some row) (find_message id db) in
      rw strip-lower (
        contains-get_whitelisted_set sender (Storage.approve_quarantined_sender R id later db').1
        ∙ is_whitelisted-approve R id later db' row sender held
        ∙ ground (arith, strip-lower sender))

  whitelisted_senders_stored :
      (id sender subject : Str) (envelope : Json) (now later : ℕ) (e : Engine) (db : Database)
      → e.storage_engine ≡ some db
      → whitelisted_senders
          (approve_quarantined_sender R id later
            (quarantine_message R id sender subject envelope now e)).1
        ≡ get_whitelisted_set
            (Storage.approve_quarantined_sender R id later
              (Storage.quarantine_message R id sender subject envelope now db)).1
          ++ e.whitelisted
  unfolding whitelisted_senders approve_quarantined_sender quarantine_message
  whitelisted_senders_stored id sender subject envelope now later e db stored = ground arith

  -- Once a quarantined message of a new id and a sender that is not blank is approved, its sender,
  -- cleaned, is in the set of whitelisted senders, with either backend.
  pub whitelist-approve :
      (id sender subject : Str) (envelope : Json) (now later : ℕ) (e : Engine)
      → is_held id e ≡ false
      → clean sender ≢ []
      → contains
          (whitelisted_senders
            (approve_quarantined_sender R id later
              (quarantine_message R id sender subject envelope now e)).1)
          (clean sender)
        ≡ true
  whitelist-approve id sender subject envelope now later e new named =
      elim (Option-cases e.storage_engine) [
        | inl memory ↦ whitelisted_memory id sender subject envelope now later e memory new
        | inr (db, stored) ↦
            rw
              (
                whitelisted_senders_stored id sender subject envelope now later e db stored,
                contains-append,
                whitelisted_stored id sender subject envelope now later db named,
              )
              refl
      ]

  -- Once a quarantined message of a new id and a sender that is not blank is approved, messages of
  -- that sender with a valid signature get grade A from the whitelist, whatever their domain,
  -- their recipient and their token, with either backend.
  pub approved_sender_grade :
      (id sender subject : Str) (envelope : Json) (now later : ℕ) (e : Engine) (s : Sender) (t : ℕ)
      → is_held id e ≡ false
      → clean sender ≢ []
      → clean s.sender ≡ clean sender
      → s.signature_valid ≡ true
      → evaluate_trust_grade R
          (approve_quarantined_sender R id later
            (quarantine_message R id sender subject envelope now e)).1
          s
          t
        ≡ some on_whitelist
  unfolding evaluate_trust_grade is_on_whitelist
  approved_sender_grade id sender subject envelope now later e s t new named same valid =
      ground (arith, whitelist-approve id sender subject envelope now later e new named)
