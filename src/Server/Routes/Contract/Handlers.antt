-- ===== src/Server/Routes/Contract/Handlers.antt =====
-- The replies of the handlers of src/web_server.py, but `_handle_translate`.
use mx2_sandbox.Base.{ℕ, Str, str, Option, arith, nat_eq, list_eq, Option-cases, inl, inr}
use mx2_sandbox.Json.{Json, num, Fields, get_or}
use mx2_sandbox.Runtime.{Runtime}
use mx2_sandbox.AntiSpam.Grade.{evaluate_trust_grade}
use mx2_sandbox.Server.{Daemon, Call, read_payload, ◌>>=◌}
use mx2_sandbox.Server.Handlers.Crypto.{
  decrypted, decrypt_reply, decryption_failed, handle_decrypt, receipt_of, receipt_reply,
  receipt_failed, handle_receipt_generate, negotiated_of, handle_negotiate,
}
use mx2_sandbox.Server.Handlers.Trust.{
  handle_vouch_verify, read_sender, handle_trust_evaluate, int_value, pow_reply, handle_pow_verify,
}
use mx2_sandbox.Server.Handlers.Queue.{
  MessageId, value, no_value, read_id, not_in_queue, approved, discarded, approve_reply,
  reject_reply, handle_queue_approve, handle_queue_reject, revoke_reply, handle_revoke,
}
use mx2_sandbox.Server.Handlers.Blobs.{
  read_content, read_hash, content_of, uploaded, downloaded, handle_cas_upload, handle_cas_download,
}
use mx2_sandbox.Server.Routes.Contract.{Answers, good, bad, both, either}

module _ (R : Runtime) (call : Call) where
  pub decryption_failed-Answers : Answers call (decryption_failed R call)
  decryption_failed-Answers = unfold decryption_failed in bad call _ _ _ 403 (omega arith)

  pub decrypt_reply-Answers : (payload : Fields) → Answers call (decrypt_reply R call payload)
  unfolding decrypt_reply
  decrypt_reply-Answers payload =
      both call _
        (either call (decrypted R call payload) (decryption_failed-Answers) (λ v. good call _))
        (bad call _ _ _ 400 (omega arith))

  pub decrypt-Answers : (body : Option Str) → Answers call (handle_decrypt R call body)
  unfolding handle_decrypt
  decrypt-Answers body =
      either call (read_payload R body) decryption_failed-Answers decrypt_reply-Answers

  pub receipt_failed-Answers : Answers call (receipt_failed R call)
  receipt_failed-Answers = unfold receipt_failed in bad call _ _ _ 500 (omega arith)

  pub receipt_reply-Answers : (payload : Fields) → Answers call (receipt_reply R call payload)
  unfolding receipt_reply
  receipt_reply-Answers payload =
      both call _
        (either call (receipt_of R call payload) receipt_failed-Answers (λ v. good call _))
        (bad call _ _ _ 400 (omega arith))

  pub receipt-Answers : (body : Option Str) → Answers call (handle_receipt_generate R call body)
  unfolding handle_receipt_generate
  receipt-Answers body =
      either call (read_payload R body) receipt_failed-Answers receipt_reply-Answers

  pub negotiate-Answers : (body : Option Str) → Answers call (handle_negotiate R call body)
  unfolding handle_negotiate
  negotiate-Answers body =
      either call (read_payload R body >>= negotiated_of R call) (bad call _ _ _ 500 (omega arith))
        (λ n. good call _)

  pub vouch-Answers : (body : Option Str) → Answers call (handle_vouch_verify R call body)
  unfolding handle_vouch_verify
  vouch-Answers body =
      either call (read_payload R body) (bad call _ _ _ 500 (omega arith)) (λ payload. good call _)

  pub trust-Answers :
      (body : Option Str) (d : Daemon)
      → Answers call (handle_trust_evaluate R call body d.anti_spam)
  unfolding handle_trust_evaluate
  trust-Answers body d =
      either call
        (read_payload R body >>= read_sender R call >>= λ s.
          evaluate_trust_grade R d.anti_spam s call.now)
        (bad call _ _ _ 500 (omega arith)) (λ trust. good call _)

  pub pow_reply-Answers :
      (challenge : Json) (nonce : Str) (bits : ℕ)
      → Answers call (pow_reply R call challenge nonce bits)
  unfolding pow_reply
  pow_reply-Answers challenge nonce bits =
      both call _ (bad call _ _ _ 400 (omega arith)) (good call _)

  pub pow-Answers : (body : Option Str) → Answers call (handle_pow_verify R call body)
  unfolding handle_pow_verify
  pow-Answers body = elim (Option-cases (read_payload R body)) [
    | inl e ↦ rw (handle_pow_verify, e) (bad call _ _ _ 500 (omega arith))
    | inr (payload, e) ↦
        elim (Option-cases (int_value (get_or payload (str "difficultyBits") (num 10)))) [
          | inl e' ↦ rw (handle_pow_verify, e, e') (bad call _ _ _ 500 (omega arith))
          | inr (bits, e') ↦ rw (handle_pow_verify, e, e') (pow_reply-Answers _ _ bits)
        ]
  ]

  pub not_in_queue-Answers : Answers call (not_in_queue R call)
  not_in_queue-Answers = unfold not_in_queue in bad call _ _ _ 404 (omega arith)

  pub approved-Answers : (message : Json) → Answers call (approved R call message)
  approved-Answers message = unfold approved in good call _

  pub discarded-Answers : Answers call (discarded R call)
  discarded-Answers = unfold discarded in good call _

  pub approve_reply-Answers :
      (id : MessageId) (d : Daemon) → Answers call (approve_reply R call id d).0
  unfolding approve_reply
  approve_reply-Answers no_value d = not_in_queue-Answers
  approve_reply-Answers (value id) d = both call _ (approved-Answers _) not_in_queue-Answers

  pub reject_reply-Answers :
      (id : MessageId) (d : Daemon) → Answers call (reject_reply R call id d).0
  unfolding reject_reply
  reject_reply-Answers no_value d = not_in_queue-Answers
  reject_reply-Answers (value id) d = both call _ discarded-Answers not_in_queue-Answers

  pub approve-Answers :
      (body : Option Str) (d : Daemon) → Answers call (handle_queue_approve R call body d).0
  unfolding handle_queue_approve
  approve-Answers body d =
      elim (Option-cases (read_payload R body >>= read_id d.anti_spam.storage_engine)) [
        | inl e ↦ rw (handle_queue_approve, e) (bad call _ _ _ 500 (omega arith))
        | inr (id, e) ↦ rw (handle_queue_approve, e) (approve_reply-Answers id d)
      ]

  pub reject-Answers :
      (body : Option Str) (d : Daemon) → Answers call (handle_queue_reject R call body d).0
  unfolding handle_queue_reject
  reject-Answers body d =
      elim (Option-cases (read_payload R body >>= read_id d.anti_spam.storage_engine)) [
        | inl e ↦ rw (handle_queue_reject, e) (bad call _ _ _ 500 (omega arith))
        | inr (id, e) ↦ rw (handle_queue_reject, e) (reject_reply-Answers id d)
      ]

  pub revoke_reply-Answers : (id : Json) → Answers call (revoke_reply R call id)
  unfolding revoke_reply
  revoke_reply-Answers id = both call _ (good call _) (bad call _ _ _ 400 (omega arith))

  pub revoke-Answers : (body : Option Str) → Answers call (handle_revoke R call body)
  unfolding handle_revoke
  revoke-Answers body =
      either call (read_payload R body) (bad call _ _ _ 500 (omega arith))
        (λ payload. revoke_reply-Answers _)

  pub upload-Answers :
      (body : Option Str) (d : Daemon) → Answers call (handle_cas_upload R call body d).0
  unfolding handle_cas_upload uploaded
  upload-Answers body d = elim (Option-cases (read_payload R body >>= read_content)) [
    | inl e ↦ rw (handle_cas_upload, e) (bad call _ _ _ 500 (omega arith))
    | inr (content, e) ↦ rw (handle_cas_upload, e) (good call _)
  ]

  pub download-Answers :
      (body : Option Str) (d : Daemon) → Answers call (handle_cas_download R call body d)
  unfolding handle_cas_download downloaded
  download-Answers body d =
      either call (read_payload R body >>= read_hash >>= content_of d.cas)
        (bad call _ _ _ 404 (omega arith)) (λ b. good call _)
