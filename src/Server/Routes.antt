-- ===== src/Server/Routes.antt =====
-- `do_GET`, `do_HEAD` and `do_POST` of src/web_server.py: what a request does to the daemon.
pub mod Counters
pub mod Requests
pub mod Paths
pub mod Contract
pub mod Quota
pub mod Histories
pub mod Recovery
pub mod Isolation
pub mod Contents
use mx2_sandbox.Base.{
  ℕ, Str, str, Bool, true, false, Option, none, some, List, [], ◌∷◌, ◌++◌, ◌||◌, ◌==◌, nat_eq,
  list_eq, if◌then◌else◌,
}
use mx2_sandbox.Base.Text.{split, first_of_split, join}
use mx2_sandbox.Json.{text, dict}
use mx2_sandbox.Runtime.{Runtime}
use mx2_sandbox.Metrics.{inc_api_requests}
use mx2_sandbox.Server.{Daemon, Call, Response, json, dashboard, no_body, send_json}
use mx2_sandbox.Server.Translate.{handle_translate}
use mx2_sandbox.Server.Handlers.Crypto.{handle_decrypt, handle_receipt_generate, handle_negotiate}
use mx2_sandbox.Server.Handlers.Trust.{
  handle_vouch_verify, handle_trust_evaluate, handle_pow_verify,
}
use mx2_sandbox.Server.Handlers.Queue.{
  handle_queue_list, handle_queue_approve, handle_queue_reject, handle_metrics, handle_revoke,
}
use mx2_sandbox.Server.Handlers.Blobs.{handle_cas_upload, handle_cas_download}

-- the last segment without its parameters
unfoldable pub cut_parameters : List Str → List Str
cut_parameters [] = []
cut_parameters (segment ∷ []) = first_of_split (split b';' segment) ∷ []
cut_parameters (segment ∷ segments) = segment ∷ cut_parameters segments

-- `urllib.parse.urlparse(target).path`, for a target that starts with one slash
unfoldable pub url_path : Str → Str
unfolding split cut_parameters join
url_path target =
    join (str "/") (
      cut_parameters
        (split b'/' (first_of_split (split b'?' (first_of_split (split b'#' target))))))

-- The keys of `endpoints`, and any other path.
pub data Endpoint : Type 0 where
  translate decrypt receipt_generate negotiate : Endpoint
  vouch_verify trust_evaluate pow_verify : Endpoint
  queue_list queue_approve queue_reject : Endpoint
  cas_upload cas_download revoke unknown : Endpoint

unfoldable pub endpoint_of : Str → Endpoint
endpoint_of path =
    if path == str "/api/translate"
    then translate
    else if path == str "/api/decrypt"
    then decrypt
    else if path == str "/api/receipt/generate"
    then receipt_generate
    else if path == str "/api/negotiate"
    then negotiate
    else if path == str "/api/vouch/verify"
    then vouch_verify
    else if path == str "/api/trust/evaluate"
    then trust_evaluate
    else if path == str "/api/queue/list"
    then queue_list
    else if path == str "/api/queue/approve"
    then queue_approve
    else if path == str "/api/queue/reject"
    then queue_reject
    else if path == str "/api/cas/upload"
    then cas_upload
    else if path == str "/api/cas/download"
    then cas_download
    else if path == str "/api/pow/verify"
    then pow_verify
    else if path == str "/api/revoke"
    then revoke
    else unknown

-- A request with its target, and the body of a POST: `none` where its length or its UTF-8 is bad.
pub data Request : Type 0 where
  get : Str → Request
  head : Request
  post : Str → Option Str → Request

abbrev pub counted : Daemon → Daemon
counted d = record d { metrics = inc_api_requests d.metrics }

unfoldable pub endpoint_not_found : Str → Response
endpoint_not_found path =
    send_json (dict ((str "error", text (str "Endpoint '" ++ (path ++ str "' not found"))) ∷ []))
      404

module _ (R : Runtime) (call : Call) where
  unfoldable pub get_reply : Str → Daemon → Response
  get_reply path d =
      if path == str "/admin" || path == str "/admin/"
      then record { status = 200; body = dashboard }
      else if path == str "/metrics"
      then handle_metrics R call d
      else if path == str "/" || path == []
      then send_json
          (dict (
            (str "status", text (str "alive"))
            ∷ (
              str "message",
              text (str "MX2 Gateway Daemon running. Administer using mx2ctl or /admin UI."),
            )
            ∷ []))
          200
      else if path == str "/health"
      then send_json (dict ((str "status", text (str "healthy")) ∷ [])) 200
      else send_json (dict ((str "error", text (str "Endpoint not found.")) ∷ [])) 404

  -- `endpoints[path]()`
  unfoldable pub call_endpoint : Endpoint → Str → Option Str → Daemon → Response × Daemon
  call_endpoint translate path body d = handle_translate R call body d
  call_endpoint decrypt path body d = (handle_decrypt R call body, d)
  call_endpoint receipt_generate path body d = (handle_receipt_generate R call body, d)
  call_endpoint negotiate path body d = (handle_negotiate R call body, d)
  call_endpoint vouch_verify path body d = (handle_vouch_verify R call body, d)
  call_endpoint trust_evaluate path body d = (handle_trust_evaluate R call body d.anti_spam, d)
  call_endpoint pow_verify path body d = (handle_pow_verify R call body, d)
  call_endpoint queue_list path body d = (handle_queue_list R call d, d)
  call_endpoint queue_approve path body d = handle_queue_approve R call body d
  call_endpoint queue_reject path body d = handle_queue_reject R call body d
  call_endpoint cas_upload path body d = handle_cas_upload R call body d
  call_endpoint cas_download path body d = (handle_cas_download R call body d, d)
  call_endpoint revoke path body d = (handle_revoke R call body, d)
  call_endpoint unknown path body d = (endpoint_not_found path, d)

  -- `do_GET`, `do_HEAD` and `do_POST`
  unfoldable pub serve : Request → Daemon → Response × Daemon
  serve (get target) d = let d' = counted d in (get_reply (url_path target) d', d')
  serve head d = (record { status = 200; body = no_body }, counted d)
  serve (post target body) d =
      let path = url_path target in call_endpoint (endpoint_of path) path body (counted d)

-- a sequence of requests
unfoldable pub serve_all : Runtime → List (Call × Request) → Daemon → Daemon
unfolding serve
serve_all R [] d = d
serve_all R ((call, q) ∷ requests) d = serve_all R requests (serve R call q d).1
