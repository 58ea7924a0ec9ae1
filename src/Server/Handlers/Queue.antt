-- ===== src/Server/Handlers/Queue.antt =====
-- `_handle_queue_list`, `_handle_queue_approve`, `_handle_queue_reject`, `_handle_metrics` and
-- `_handle_revoke` of src/web_server.py.
use mx2_sandbox.Base.{
  ltb, ◌^◌, Str, str, true, Option, none, some, [], ◌∷◌, ◌++◌, length, if◌then◌else◌,
}
use mx2_sandbox.Base.Decimal.{decimal}
use mx2_sandbox.Json.{Json, null, bool, num, text, arr, Fields, items, dict, get_or, truthy}
use mx2_sandbox.Runtime.{Runtime}
use mx2_sandbox.Storage.{Database}
use mx2_sandbox.AntiSpam.Queue.{
  holding_queue, approve_quarantined_sender, reject_quarantined_sender,
}
use mx2_sandbox.Metrics.{export_prometheus_metrics}
use mx2_sandbox.Server.{Daemon, Call, Response, plain, send_json, send_error, read_payload, ◌>>=◌}

-- An id as it is compared with the texts of the queue: `no_value` equals none of them.
pub data MessageId : Type 0 where
  no_value : MessageId
  value : Str → MessageId

-- In memory, `==` of a text and any other value is false.
abbrev pub memory_id : Json → MessageId
memory_id (text s) = value s
memory_id _ = no_value

-- The database compares a number with the texts of a column as its text; `none` stands for a value
-- that it cannot bind.
unfoldable pub database_id : Json → Option MessageId
database_id null = some no_value
database_id (text s) = some (value s)
database_id (num n) = if ltb n (2 ^ 63) then some (value (decimal n)) else none
database_id (bool b) = some (value (if b then str "1" else str "0"))
database_id _ = none

-- the id of a payload, for the queue in memory or in a database
unfoldable pub read_id : Option Database → Fields → Option MessageId
unfolding database_id
read_id none payload = some (memory_id (get_or payload (str "messageId") (text [])))
read_id (some db) payload = database_id (get_or payload (str "messageId") (text []))

module _ (R : Runtime) (call : Call) where
  -- `_handle_queue_list`
  unfoldable pub handle_queue_list : Daemon → Response
  handle_queue_list d =
      send_json
        (dict (
          (str "success", bool true)
          ∷ (str "queue", arr (items (holding_queue R d.anti_spam)))
          ∷ []))
        200

  unfoldable pub not_in_queue : Response
  not_in_queue =
      send_error (str "ERR_QUEUE_MESSAGE_NOT_FOUND")
        (str "Bericht niet gevonden in quarantine-holding queue.") (str "validation") 404 call

  unfoldable pub approved : Json → Response
  approved message =
      send_json
        (dict (
          (str "success", bool true)
          ∷ (str "message", text (str "Sender whitelisted and message released."))
          ∷ (str "releasedMessage", message)
          ∷ []))
        200

  unfoldable pub discarded : Response
  discarded =
      send_json
        (dict (
          (str "success", bool true)
          ∷ (str "message", text (str "Quarantined email discarded."))
          ∷ []))
        200

  unfoldable pub approve_reply : MessageId → Daemon → Response × Daemon
  approve_reply no_value d = (not_in_queue, d)
  approve_reply (value id) d =
      let ((success, message), engine) = approve_quarantined_sender R id call.now d.anti_spam in
      (if success then approved message else not_in_queue, record d { anti_spam = engine })

  -- `_handle_queue_approve`
  unfoldable pub handle_queue_approve : Option Str → Daemon → Response × Daemon
  handle_queue_approve body d = elim (read_payload R body >>= read_id d.anti_spam.storage_engine) [
    | none ↦ (
      send_error (str "ERR_QUEUE_APPROVE_FAILED") (str "Fout bij whitelisten: " ++ call.error_text)
          (str "server") 500 call,
      d,
    )
    | some id ↦ approve_reply id d
  ]

  unfoldable pub reject_reply : MessageId → Daemon → Response × Daemon
  reject_reply no_value d = (not_in_queue, d)
  reject_reply (value id) d =
      let (success, engine) = reject_quarantined_sender id d.anti_spam in
      (if success then discarded else not_in_queue, record d { anti_spam = engine })

  -- `_handle_queue_reject`
  unfoldable pub handle_queue_reject : Option Str → Daemon → Response × Daemon
  handle_queue_reject body d = elim (read_payload R body >>= read_id d.anti_spam.storage_engine) [
    | none ↦ (
      send_error (str "ERR_QUEUE_REJECT_FAILED") (str "Fout bij verwerpen: " ++ call.error_text)
          (str "server") 500 call,
      d,
    )
    | some id ↦ reject_reply id d
  ]

  -- `_handle_metrics`
  unfoldable pub handle_metrics : Daemon → Response
  handle_metrics d = record {
    status = 200;
    body = plain (export_prometheus_metrics d.metrics (length (holding_queue R d.anti_spam)));
  }

  unfoldable pub revoke_reply : Json → Response
  revoke_reply message_id =
      if truthy message_id
      then send_json
          (dict (
            (str "success", bool true)
            ∷ (str "status", text (str "REVOKED"))
            ∷ (str "messageId", message_id)
            ∷ (str "message", text (str "Envelope ephemeral key successfully invalidated."))
            ∷ []))
          200
      else send_error (str "ERR_REVOCATION_MISSING_ID")
          (str "Kan bericht sleutel niet intrekken: 'messageId' ontbreekt.") (str "validation") 400
          call

  -- `_handle_revoke`
  unfoldable pub handle_revoke : Option Str → Response
  handle_revoke body = elim (read_payload R body) [
    | none ↦
        send_error (str "ERR_REVOCATION_FAILED")
          (str "Fout bij intrekken van bericht sleutel: " ++ call.error_text) (str "server") 500
          call
    | some payload ↦ revoke_reply (get_or payload (str "messageId") (text []))
  ]
