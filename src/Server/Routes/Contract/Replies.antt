-- ===== src/Server/Routes/Contract/Replies.antt =====
-- Every endpoint of src/web_server.py, and a request of mx2ctl.py to any of them.
use mx2_sandbox.Base.{◌≢◌, refl, Str, Option}
use mx2_sandbox.Runtime.{Runtime}
use mx2_sandbox.Server.{Daemon, Call}
use mx2_sandbox.Server.Routes.{
  Endpoint, translate, decrypt, receipt_generate, negotiate, vouch_verify, trust_evaluate,
  pow_verify, queue_list, queue_approve, queue_reject, cas_upload, cas_download, revoke, unknown,
  call_endpoint,
}
use mx2_sandbox.Server.Handlers.Queue.{handle_queue_list}
use mx2_sandbox.Server.Routes.Contract.{Answers, good}
use mx2_sandbox.Server.Routes.Contract.Handlers.{
  decrypt-Answers, receipt-Answers, negotiate-Answers, vouch-Answers, trust-Answers, pow-Answers,
  approve-Answers, reject-Answers, upload-Answers, download-Answers, revoke-Answers,
}
use mx2_sandbox.Server.Routes.Contract.Translate.{translate-Answers}

list-Answers : (R : Runtime) (call : Call) (d : Daemon) → Answers call (handle_queue_list R call d)
list-Answers R call d = unfold handle_queue_list in good call _

-- Every endpoint that the daemon knows, whatever the body and the state, answers either with status
-- 200 and a dict whose success is true, or with the error dict of some code, message and kind and a
-- status of at least 400.
pub endpoint_answers :
    (R : Runtime) (call : Call) (e : Endpoint) (path : Str) (body : Option Str) (d : Daemon)
    → e ≢ unknown
    → Answers call (call_endpoint R call e path body d).0
unfolding call_endpoint
endpoint_answers R call translate path body d h = translate-Answers R call body d
endpoint_answers R call decrypt path body d h = decrypt-Answers R call body
endpoint_answers R call receipt_generate path body d h = receipt-Answers R call body
endpoint_answers R call negotiate path body d h = negotiate-Answers R call body
endpoint_answers R call vouch_verify path body d h = vouch-Answers R call body
endpoint_answers R call trust_evaluate path body d h = trust-Answers R call body d
endpoint_answers R call pow_verify path body d h = pow-Answers R call body
endpoint_answers R call queue_list path body d h = list-Answers R call d
endpoint_answers R call queue_approve path body d h = approve-Answers R call body d
endpoint_answers R call queue_reject path body d h = reject-Answers R call body d
endpoint_answers R call cas_upload path body d h = upload-Answers R call body d
endpoint_answers R call cas_download path body d h = download-Answers R call body d
endpoint_answers R call revoke path body d h = revoke-Answers R call body
endpoint_answers R call unknown path body d h = absurd (h refl)
