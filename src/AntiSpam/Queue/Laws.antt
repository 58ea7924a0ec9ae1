-- ===== src/AntiSpam/Queue/Laws.antt =====
-- The holding queue of src/anti_spam.py, seen as the set of the held ids, with either backend.
use mx2_sandbox.Base.{
  ℕ, ◌≡◌, refl, Str, Bool, true, false, ◌||◌, Option, none, some, List, [], ◌∷◌, ◌++◌, any, arith,
  ◌==◌, nat_eq, list_eq, contains, if◌then◌else◌, Option-cases, inl, inr,
}
use mx2_sandbox.Json.{Json}
use mx2_sandbox.Runtime.{Runtime}
use mx2_sandbox.Storage
use mx2_sandbox.Storage.{Database}
use mx2_sandbox.Storage.Queue.{
  find_message-quarantine_message, approve_result, find_message-approve, reject_lem,
}
use mx2_sandbox.AntiSpam.{Engine, Held}
use mx2_sandbox.AntiSpam.Queue.{
  has_id, pop_message, quarantine_message, approve_quarantined_sender, reject_quarantined_sender,
}

-- a message of this id is held
abbrev pub is_held : Str → Engine → Bool
is_held id e = elim e.storage_engine [
  | none ↦ any (has_id id) e.holding
  | some db ↦ elim (Storage.Queue.find_message id db) [ none ↦ false | some r ↦ true ]
]

-- No two messages in memory have the same id.
abbrev pub UniqueIds : List Held → Type 0
UniqueIds [] = Unit
UniqueIds (m ∷ queue) = (any (has_id m.message_id) queue ≡ false) × UniqueIds queue

-- the queue after `pop`, and as it is if the id was not found
abbrev pub left_or : List Held → Option (Held × List Held) → List Held
left_or queue none = queue
left_or queue (some (m, rest)) = rest

abbrev pub remaining : Str → List Held → List Held
remaining id queue = left_or queue (pop_message id queue)

any-append :
    (p : Held → Bool) (queue : List Held) (m : Held)
    → any p (queue ++ m ∷ []) ≡ (any p queue || p m)
any-append p [] m = ground arith
any-append p (q ∷ queue) m = ground (arith, any-append p queue m)

append-UniqueIds :
    (queue : List Held) (m : Held)
    → any (has_id m.message_id) queue ≡ false
    → UniqueIds queue
    → UniqueIds (queue ++ m ∷ [])
append-UniqueIds [] m h u = (refl, tt)
append-UniqueIds (q ∷ queue) m h (k, u) =
    ground (arith, append-UniqueIds queue m, any-append (has_id q.message_id) queue m)

pub pop-append :
    (id : Str) (queue : List Held) (m : Held)
    → any (has_id id) queue ≡ false
    → m.message_id ≡ id
    → pop_message id (queue ++ m ∷ []) ≡ some (m, queue)
unfolding pop_message
pop-append id [] m h e = ground arith
pop-append id (q ∷ queue) m h e = ground (arith, pop-append id queue m)

-- `pop` finds a message exactly when one of that id is held.
pub pop-is_some :
    (id : Str) (queue : List Held)
    → any (has_id id) queue ≡ elim (pop_message id queue) [ none ↦ false | some r ↦ true ]
unfolding pop_message
pop-is_some id [] = refl
pop-is_some id (m ∷ queue) = ground (arith, pop-is_some id queue)

any-remaining :
    (j id : Str) (queue : List Held)
    → UniqueIds queue
    → any (has_id j) (remaining id queue) ≡ (if j == id then false else any (has_id j) queue)
unfolding pop_message
any-remaining j id [] u = ground arith
any-remaining j id (m ∷ queue) (k, u) = ground (arith, any-remaining j id queue u)

remaining-UniqueIds :
    (id : Str) (queue : List Held) → UniqueIds queue → UniqueIds (remaining id queue)
unfolding pop_message
remaining-UniqueIds id [] u = tt
remaining-UniqueIds id (m ∷ queue) (k, u) =
    ground (arith, remaining-UniqueIds id queue u, any-remaining m.message_id id queue u)

pub contains-append :
    (xs ys : List Str) (a : Str) → contains (xs ++ ys) a ≡ (contains xs a || contains ys a)
contains-append [] ys a = refl
contains-append (x ∷ xs) ys a = ground (arith, contains-append xs ys a)

holding-approve :
    (R : Runtime) (id : Str) (now : ℕ) (e : Engine)
    → (approve_quarantined_sender R id now e).1.holding
      ≡ elim e.storage_engine [ none ↦ remaining id e.holding | some db ↦ e.holding ]
unfolding approve_quarantined_sender
holding-approve R id now e = ground arith

holding-reject :
    (id : Str) (e : Engine)
    → (reject_quarantined_sender id e).1.holding
      ≡ elim e.storage_engine [ none ↦ remaining id e.holding | some db ↦ e.holding ]
unfolding reject_quarantined_sender
holding-reject id e = ground arith

after_pop-UniqueIds :
    (id : Str) (e : Engine)
    → UniqueIds e.holding
    → UniqueIds (elim e.storage_engine [ none ↦ remaining id e.holding | some db ↦ e.holding ])
after_pop-UniqueIds id e u = elim (Option-cases e.storage_engine) [
  | inl memory ↦ rw memory (remaining-UniqueIds id e.holding u)
  | inr (db, stored) ↦ rw stored u
]

module _ (R : Runtime) where
  quarantine_message-UniqueIds :
      (id sender subject : Str) (envelope : Json) (now : ℕ) (e : Engine)
      → UniqueIds e.holding
      → UniqueIds (quarantine_message R id sender subject envelope now e).holding
  unfolding quarantine_message
  quarantine_message-UniqueIds id sender subject envelope now e u = ground (
    arith,
    append-UniqueIds e.holding (record {
      message_id = id;
      sender = sender;
      subject = subject;
      envelope = envelope;
      timestamp = now;
    }),
  )

  -- Quarantine, approval and rejection keep the ids of the messages in memory unique.
  pub queue-UniqueIds :
      (id sender subject : Str) (envelope : Json) (now : ℕ) (e : Engine)
      → UniqueIds e.holding
      → UniqueIds (quarantine_message R id sender subject envelope now e).holding
        × UniqueIds (approve_quarantined_sender R id now e).1.holding
        × UniqueIds (reject_quarantined_sender id e).1.holding
  queue-UniqueIds id sender subject envelope now e u = (
    quarantine_message-UniqueIds id sender subject envelope now e u,
    rw (holding-approve R id now e) (after_pop-UniqueIds id e u),
    rw (holding-reject id e) (after_pop-UniqueIds id e u),
  )

  -- A quarantine adds its id to the held ids and removes none, with either backend.
  pub is_held-quarantine_message :
      (id sender subject : Str) (envelope : Json) (now : ℕ) (e : Engine) (j : Str)
      → is_held j (quarantine_message R id sender subject envelope now e) ≡ (j == id || is_held j e)
  unfolding quarantine_message
  is_held-quarantine_message id sender subject envelope now e j =
      elim (Option-cases e.storage_engine) [
        | inl memory ↦ ground (
          arith,
          memory,
          any-append (has_id j) e.holding (record {
            message_id = id;
            sender = sender;
            subject = subject;
            envelope = envelope;
            timestamp = now;
          }),
        )
        | inr (db, stored) ↦
            ground
              (arith, stored, find_message-quarantine_message R id sender subject envelope now db j)
      ]

  -- If no two messages in memory have one id, an approval reports whether its id was held, and
  -- removes that id from the held ids and no other, with either backend.
  pub is_held-approve :
      (id : Str) (now : ℕ) (e : Engine) (j : Str)
      → UniqueIds e.holding
      → ((approve_quarantined_sender R id now e).0.0 ≡ is_held id e)
        × (is_held j (approve_quarantined_sender R id now e).1
            ≡ (if j == id then false else is_held j e))
  unfolding approve_quarantined_sender
  is_held-approve id now e j u = elim (Option-cases e.storage_engine) [
    | inl memory ↦ ground (arith, memory, pop-is_some id e.holding, any-remaining j id e.holding u)
    | inr (db, stored) ↦
        ground (arith, stored, approve_result R id now db, find_message-approve R id now db j)
  ]

  -- If no two messages in memory have one id, a rejection reports whether its id was held, and
  -- removes that id from the held ids and no other, with either backend.
  pub is_held-reject :
      (id : Str) (e : Engine) (j : Str)
      → UniqueIds e.holding
      → ((reject_quarantined_sender id e).0 ≡ is_held id e)
        × (is_held j (reject_quarantined_sender id e).1 ≡ (if j == id then false else is_held j e))
  unfolding reject_quarantined_sender
  is_held-reject id e j u = elim (Option-cases e.storage_engine) [
    | inl memory ↦ ground (arith, memory, pop-is_some id e.holding, any-remaining j id e.holding u)
    | inr (db, stored) ↦ ground (arith, stored, reject_lem id db j)
  ]
