-- ===== src/Server/Routes/Requests.antt =====
-- The requests to src/web_server.py keep the invariants of the quota.
use mx2_sandbox.Base.{ℕ, ◌≤◌, Str, Option, List, [], ◌∷◌, arith}
use mx2_sandbox.Runtime.{Runtime}
use mx2_sandbox.AntiSpam.Quota.Invariant.{QuotaInvariant, SameQuota}
use mx2_sandbox.AntiSpam.Queue.{approve_quarantined_sender, reject_quarantined_sender}
use mx2_sandbox.Server.{Daemon, Call}
use mx2_sandbox.Server.Translate.Limit.{handle_translate-Holds}
use mx2_sandbox.Server.Handlers.Queue.{
  approve_reply, reject_reply, handle_queue_approve, handle_queue_reject,
}
use mx2_sandbox.Server.Handlers.Blobs.{handle_cas_upload}
use mx2_sandbox.Server.Routes.{
  Endpoint, translate, queue_approve, queue_reject, cas_upload, Request, get, head, post,
  call_endpoint, serve, serve_all,
}

-- The clock does not run backwards, from `now` over the calls to `last`.
abbrev pub InOrder : ℕ → List (Call × Request) → ℕ → Type 0
InOrder now [] last = now ≤ last
InOrder now ((call, q) ∷ requests) last = (now ≤ call.now) × InOrder call.now requests last

module _ (R : Runtime) where
  module _ (call : Call) where
    SameQuota-approve :
        (body : Option Str) (d : Daemon)
        → SameQuota d.anti_spam (handle_queue_approve R call body d).1.anti_spam
    unfolding handle_queue_approve approve_reply approve_quarantined_sender
    SameQuota-approve body d = (ground arith, ground arith)

    SameQuota-reject :
        (body : Option Str) (d : Daemon)
        → SameQuota d.anti_spam (handle_queue_reject R call body d).1.anti_spam
    unfolding handle_queue_reject reject_reply reject_quarantined_sender
    SameQuota-reject body d = (ground arith, ground arith)

    SameQuota-upload :
        (body : Option Str) (d : Daemon)
        → SameQuota d.anti_spam (handle_cas_upload R call body d).1.anti_spam
    unfolding handle_cas_upload
    SameQuota-upload body d = (ground arith, ground arith)

    module _ (I : QuotaInvariant) where
      call_endpoint-Holds :
          (e : Endpoint) (path : Str) (body : Option Str) (d : Daemon)
          → I.Holds call.now d.anti_spam
          → I.Holds call.now (call_endpoint R call e path body d).1.anti_spam
      unfolding call_endpoint
      call_endpoint-Holds translate path body d old = handle_translate-Holds R call I body d old
      call_endpoint-Holds queue_approve path body d old =
          I.same call.now _ _ (SameQuota-approve body d) old
      call_endpoint-Holds queue_reject path body d old =
          I.same call.now _ _ (SameQuota-reject body d) old
      call_endpoint-Holds cas_upload path body d old =
          I.same call.now _ _ (SameQuota-upload body d) old
      call_endpoint-Holds _ path body d old = old

      pub serve-Holds :
          (q : Request) (d : Daemon)
          → I.Holds call.now d.anti_spam
          → I.Holds call.now (serve R call q d).1.anti_spam
      unfolding serve
      serve-Holds (get target) d old = old
      serve-Holds head d old = old
      serve-Holds (post target body) d old = call_endpoint-Holds _ _ body _ old

  pub serve_all-Holds :
      (I : QuotaInvariant) (now last : ℕ) (requests : List (Call × Request)) (d : Daemon)
      → InOrder now requests last
      → I.Holds now d.anti_spam
      → I.Holds last (serve_all R requests d).anti_spam
  unfolding serve_all
  serve_all-Holds I now last [] d h old = I.later now last _ h old
  serve_all-Holds I now last ((call, q) ∷ requests) d (h, rest) old =
      serve_all-Holds I call.now last requests (serve R call q d).1 rest
        (serve-Holds call I q d (I.later now call.now _ h old))
