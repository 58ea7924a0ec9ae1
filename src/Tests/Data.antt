-- ===== src/Tests/Data.antt =====
-- The inputs of the examples.
use mx2_sandbox.Base.{ℕ, ◌*◌, ◌^◌, Str, str, Bool, true, false, Option, none, some, [], ◌∷◌}
use mx2_sandbox.Json.{null, bool, text, dict}
use mx2_sandbox.Storage.{init_db}
use mx2_sandbox.AntiSpam.{Engine, new_engine}
use mx2_sandbox.AntiSpam.Grade.{Sender}
use mx2_sandbox.Gateway.Translate.{Fresh}
use mx2_sandbox.Metrics.{new_metrics}
use mx2_sandbox.Server.{Daemon, Call}
use mx2_sandbox.Server.Submission.{Submission}
use mx2_sandbox.Tests.Codec.{dump}

abbrev pub fresh : Fresh
fresh = record {
  ephemeral_private = 7 ∷ [];
  message_id = str "msg-1";
  timestamp = str "2026-01-01T00:00:00Z";
  uuid = λ n. str "0123456789";
}

-- a call at a second
abbrev pub call_at : ℕ → Call
call_at second = record {
  now = second * 10 ^ 6;
  timestamp = str "2026-01-01T00:00:00Z";
  fresh = fresh;
  error_text = str "error";
}

-- an engine in memory that lets two messages through
abbrev pub memory_engine : Engine
memory_engine = new_engine 2 none

abbrev pub stored_engine : Engine
stored_engine = new_engine 2 (some init_db)

abbrev pub daemon : Daemon
daemon = record { anti_spam = stored_engine; cas = []; metrics = new_metrics }

abbrev pub raw_mail : Str
raw_mail = str "From: eve@evil.net"

abbrev pub submission : Bool → Submission
submission valid = record {
  raw_smtp = raw_mail;
  pubkey = some [];
  features = null;
  vouch_token = null;
  voucher_pubkey = [];
  signature_valid = valid;
}

abbrev pub translate_body : Option Str
translate_body =
    some (dump (dict ((str "smtp", text raw_mail) ∷ (str "signatureValid", bool false) ∷ [])))

abbrev pub upload_body : Option Str
upload_body = some (dump (dict ((str "content", text (str "report")) ∷ [])))

abbrev pub stranger : Sender
stranger = record {
  sender = str "Eve@Evil.net";
  sender_domain = str "evil.net";
  recipient = str "bob@example.com";
  vouch_token = null;
  voucher_pubkey = [];
  signature_valid = true;
}
