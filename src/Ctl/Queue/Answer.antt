-- ===== src/Ctl/Queue/Answer.antt =====
-- `cmd_queue` of mx2ctl.py together with the handlers of the queue of src/web_server.py.
use mx2_sandbox.Base.{
  ℕ, ◌≡◌, ◌≢◌, refl, sym, Str, str, Bool, true, false, Option, none, some, [], ◌∷◌, ◌++◌, arith,
  ◌==◌, nat_eq, list_eq, if◌then◌else◌, Option-cases, inl, inr,
}
use mx2_sandbox.Base.Decimal.{decimal}
use mx2_sandbox.Json.{Json, get_or, get_field}
use mx2_sandbox.Runtime.{Runtime, IsLawful}
use mx2_sandbox.Storage.{Database}
use mx2_sandbox.Storage.Queue.{approve_result, reject_lem}
use mx2_sandbox.AntiSpam.{Engine}
use mx2_sandbox.AntiSpam.Queue.{approve_quarantined_sender, reject_quarantined_sender}
use mx2_sandbox.AntiSpam.Queue.Laws.{
  is_held, UniqueIds, pop-is_some, is_held-approve, is_held-reject,
}
use mx2_sandbox.Server.{Daemon, Call, Response}
use mx2_sandbox.Server.Handlers.Queue.{
  value, read_id, handle_queue_approve, handle_queue_reject, approve_reply, reject_reply, approved,
  discarded, not_in_queue,
}
use mx2_sandbox.Server.Routes.{call_endpoint, serve, counted}
use mx2_sandbox.Ctl.Terminal.{Ran, red}
use mx2_sandbox.Ctl.Request.{answered, stopped, request_api, read_response}
use mx2_sandbox.Ctl.Request.Laws.{read_payload-sent, read_response-json, read_response-error}
use mx2_sandbox.Ctl.Queue.{
  QueueAction, list, approve, reject, cmd_queue, after_action, id_payload, approved_line,
  rejected_line,
}
use mx2_sandbox.Server.Routes.Paths.{approve_route, reject_route}

-- what the engine does for an action on an id, and its line
abbrev pub acted : Runtime → ℕ → QueueAction → Str → Engine → Engine
acted R now list id e = e
acted R now approve id e = (approve_quarantined_sender R id now e).1
acted R now reject id e = (reject_quarantined_sender id e).1

abbrev pub success_line : QueueAction → Str → Str
success_line reject id = rejected_line id
success_line _ id = approved_line id

abbrev pub not_found_line : Str
not_found_line = red (
    str "[-] Error ["
    ++ (decimal 404 ++ (str "]: " ++ str "Bericht niet gevonden in quarantine-holding queue.")))

approve_success :
    (R : Runtime) (id : Str) (now : ℕ) (e : Engine)
    → (approve_quarantined_sender R id now e).0.0 ≡ is_held id e
unfolding approve_quarantined_sender
approve_success R id now e = elim (Option-cases e.storage_engine) [
  | inl memory ↦ ground (arith, memory, pop-is_some id e.holding)
  | inr (db, stored) ↦ ground (arith, stored, approve_result R id now db)
]

reject_success : (id : Str) (e : Engine) → (reject_quarantined_sender id e).0 ≡ is_held id e
unfolding reject_quarantined_sender
reject_success id e = elim (Option-cases e.storage_engine) [
  | inl memory ↦ ground (arith, memory, pop-is_some id e.holding)
  | inr (db, stored) ↦ ground (arith, stored, reject_lem id db id)
]

read_sent_id :
    (storage : Option Database) (id : Str) → read_id storage (id_payload id) ≡ some (value id)
unfolding read_id get_or get_field list_eq nat_eq
read_sent_id none id = refl
read_sent_id (some db) id = refl

module _ (R : Runtime) (L : IsLawful R) (call : Call) where
  -- the answer to an action, as the command reads it
  abbrev pub outcome : QueueAction → Str → Daemon → Ran
  outcome action id d = record {
    printed = (if is_held id d.anti_spam then success_line action id else not_found_line) ∷ [];
    exit_code = if is_held id d.anti_spam then 0 else 1;
    daemon = record (counted d) { anti_spam = acted R call.now action id d.anti_spam };
  }

  read_approved : (m : Json) → (v : Json) × (read_response R call (approved R call m) ≡ answered v)
  unfolding approved
  read_approved m = (_, read_response-json R L call _ 200 (omega arith))

  read_discarded : (v : Json) × (read_response R call (discarded R call) ≡ answered v)
  unfolding discarded
  read_discarded = (_, read_response-json R L call _ 200 (omega arith))

  read_not_in_queue : read_response R call (not_in_queue R call) ≡ stopped (not_found_line ∷ [])
  unfolding not_in_queue
  read_not_in_queue = read_response-error R L call _ _ _ 404 (omega arith)

  -- what is printed for an answer, which is read or stops the command
  printed_answer :
      (action : QueueAction) (id : Str) (d : Daemon) (success : Bool) (good bad : Response)
      → success ≡ is_held id d.anti_spam
      → (v : Json) × (read_response R call good ≡ answered v)
      → read_response R call bad ≡ stopped (not_found_line ∷ [])
      → after_action (success_line action id) (
        read_response R call (if success then good else bad),
        record (counted d) { anti_spam = acted R call.now action id d.anti_spam },
      )
        ≡ outcome action id d
  unfolding after_action
  printed_answer action id d true good bad e (v, g) b = rw (sym e, g) refl
  printed_answer action id d false good bad e (v, g) b = rw (sym e, b) refl

  cmd_queue_approve :
      (mx2_url : Str) (c : ℕ) (id : Str) (d : Daemon)
      → cmd_queue R call mx2_url true approve (some (c ∷ id)) d ≡ outcome approve (c ∷ id) d
  unfolding cmd_queue request_api serve call_endpoint handle_queue_approve approve_reply
  cmd_queue_approve mx2_url c id d =
      rw
        (
          approve_route,
          call_endpoint,
          handle_queue_approve,
          read_payload-sent R L (id_payload (c ∷ id)),
          read_sent_id d.anti_spam.storage_engine (c ∷ id),
          approve_reply,
        )
        (printed_answer approve (c ∷ id) d _ _ _ (approve_success R (c ∷ id) call.now d.anti_spam)
          (read_approved _) read_not_in_queue)

  cmd_queue_reject :
      (mx2_url : Str) (c : ℕ) (id : Str) (d : Daemon)
      → cmd_queue R call mx2_url true reject (some (c ∷ id)) d ≡ outcome reject (c ∷ id) d
  unfolding cmd_queue request_api serve call_endpoint handle_queue_reject reject_reply
  cmd_queue_reject mx2_url c id d =
      rw
        (
          reject_route,
          call_endpoint,
          handle_queue_reject,
          read_payload-sent R L (id_payload (c ∷ id)),
          read_sent_id d.anti_spam.storage_engine (c ∷ id),
          reject_reply,
        )
        (printed_answer reject (c ∷ id) d _ _ _ (reject_success (c ∷ id) d.anti_spam) read_discarded
          read_not_in_queue)

  -- an action on an id of at least one character
  pub cmd_queue_action :
      (mx2_url : Str) (action : QueueAction) (id : Str) (d : Daemon)
      → action ≢ list
      → id ≢ []
      → cmd_queue R call mx2_url true action (some id) d ≡ outcome action id d
  cmd_queue_action mx2_url action [] d h k = absurd (k refl)
  cmd_queue_action mx2_url list (c ∷ id) d h k = absurd (h refl)
  cmd_queue_action mx2_url approve (c ∷ id) d h k = cmd_queue_approve mx2_url c id d
  cmd_queue_action mx2_url reject (c ∷ id) d h k = cmd_queue_reject mx2_url c id d

  acted-is_held :
      (action : QueueAction) (id j : Str) (e : Engine)
      → action ≢ list
      → UniqueIds e.holding
      → is_held j (acted R call.now action id e) ≡ (if j == id then false else is_held j e)
  acted-is_held list id j e h u = absurd (h refl)
  acted-is_held approve id j e h u = (is_held-approve R id call.now e j u).1
  acted-is_held reject id j e h u = (is_held-reject R id e j u).1

  -- `mx2ctl queue approve` and `mx2ctl queue reject` with an id that is not empty, over a lawful
  -- runtime and a daemon that can be reached and holds no two messages of one id in memory: if the
  -- id is held, the line of success is printed and the exit code is 0, and if not, the daemon's
  -- error, and 1. Behind the command that id is not held, and every other id is held as before.
  pub cmd_queue_decides :
      (mx2_url : Str) (action : QueueAction) (id j : Str) (d : Daemon)
      → action ≢ list
      → id ≢ []
      → UniqueIds d.anti_spam.holding
      → let ran = cmd_queue R call mx2_url true action (some id) d in
        (ran.printed
          ≡ (if is_held id d.anti_spam then success_line action id else not_found_line) ∷ [])
        × (ran.exit_code ≡ (if is_held id d.anti_spam then 0 else 1))
        × (is_held j ran.daemon.anti_spam ≡ (if j == id then false else is_held j d.anti_spam))
  cmd_queue_decides mx2_url action id j d h k u =
      rw (cmd_queue_action mx2_url action id d h k)
        (refl, refl, acted-is_held action id j d.anti_spam h u)
