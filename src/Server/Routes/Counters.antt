-- ===== src/Server/Routes/Counters.antt =====
-- What the requests of src/web_server.py do to the counters of src/metrics.py.
use mx2_sandbox.Base.{◌+◌, ◌≡◌, refl, Str, Option, List, [], ◌∷◌, length, arith}
use mx2_sandbox.Runtime.{Runtime}
use mx2_sandbox.Metrics.{inc_api_requests}
use mx2_sandbox.Server.{Daemon, Call}
use mx2_sandbox.Server.Submission.{Submission}
use mx2_sandbox.Server.Translate.{
  finish, translate_and_finish, check_quota, submit, handle_translate,
}
use mx2_sandbox.Server.Handlers.Queue.{
  approve_reply, reject_reply, handle_queue_approve, handle_queue_reject,
}
use mx2_sandbox.Server.Handlers.Blobs.{handle_cas_upload}
use mx2_sandbox.AntiSpam.Grade.{Trust}
use mx2_sandbox.Json.{Json}
use mx2_sandbox.Server.Routes.{Endpoint, Request, get, head, post, call_endpoint, serve, serve_all}

module _ (R : Runtime) where
  module _ (call : Call) where
    metrics-finish :
        (s : Submission) (trust : Trust) (translated : Json) (d : Daemon)
        → (finish R call s trust translated d).1.metrics ≡ d.metrics
    unfolding finish
    metrics-finish s trust translated d = ground arith

    metrics-translate_and_finish :
        (s : Submission) (trust : Trust) (d : Daemon)
        → (translate_and_finish R call s trust d).1.metrics ≡ d.metrics
    unfolding translate_and_finish
    metrics-translate_and_finish s trust d = grind (arith, metrics-finish)

    metrics-check_quota :
        (s : Submission) (trust : Trust) (d : Daemon)
        → (check_quota R call s trust d).1.metrics ≡ d.metrics
    unfolding check_quota
    metrics-check_quota s trust d = grind (arith, metrics-translate_and_finish)

    metrics-submit : (s : Submission) (d : Daemon) → (submit R call s d).1.metrics ≡ d.metrics
    unfolding submit
    metrics-submit s d = grind (arith, metrics-check_quota)

    metrics-handle_translate :
        (body : Option Str) (d : Daemon) → (handle_translate R call body d).1.metrics ≡ d.metrics
    unfolding handle_translate
    metrics-handle_translate body d = grind (arith, metrics-submit)

    metrics-call_endpoint :
        (e : Endpoint) (path : Str) (body : Option Str) (d : Daemon)
        → (call_endpoint R call e path body d).1.metrics ≡ d.metrics
    unfolding call_endpoint handle_queue_approve handle_queue_reject approve_reply reject_reply
        handle_cas_upload
    metrics-call_endpoint e path body d = ground (arith, metrics-handle_translate body d)

    metrics-serve :
        (q : Request) (d : Daemon) → (serve R call q d).1.metrics ≡ inc_api_requests d.metrics
    unfolding serve
    metrics-serve (get target) d = refl
    metrics-serve head d = refl
    metrics-serve (post target body) d = metrics-call_endpoint _ _ body _

  -- A sequence of requests adds its length to the count of API requests. The counters of
  -- translations, of verified work and of decryptions stay as they were.
  pub metrics-serve_all :
      (requests : List (Call × Request)) (d : Daemon)
      → (serve_all R requests d).metrics
        ≡ record d.metrics { api_requests_total = d.metrics.api_requests_total + length requests }
  unfolding serve_all inc_api_requests
  metrics-serve_all [] d = ground arith
  metrics-serve_all ((call, q) ∷ requests) d =
      ground (arith, metrics-serve_all requests (serve R call q d).1, metrics-serve call q d)
