-- ===== src/Ctl/Request.antt =====
-- `_request_api` of mx2ctl.py, over the daemon of src/web_server.py.
pub mod Laws
pub mod Outcome
use mx2_sandbox.Base.{
  ℕ, Str, str, Bool, true, false, Option, none, some, List, [], ◌∷◌, ◌++◌, leb, ◌==◌, nat_eq,
  if◌then◌else◌,
}
use mx2_sandbox.Base.Decimal.{decimal}
use mx2_sandbox.Json.{Json, text, obj, Fields, get_field}
use mx2_sandbox.Runtime.{Runtime}
use mx2_sandbox.Server.{Daemon, Call, Response, Body, json, plain, ◌>>=◌}
use mx2_sandbox.Server.Handlers.Trust.{str_value}
use mx2_sandbox.Server.Routes.{Request, post, serve}
use mx2_sandbox.Ctl.Terminal.{Ran, red}

-- What a request comes to: the value of the answer, or the lines printed before the exit.
pub data Reply : Type 0 where
  answered : Json → Reply
  stopped : List Str → Reply

-- `http.server` sends the standard phrase of a status.
abbrev pub reason_phrase : ℕ → Str
reason_phrase status =
    if status == 400
    then str "Bad Request"
    else if status == 403
    then str "Forbidden"
    else if status == 404
    then str "Not Found"
    else if status == 429
    then str "Too Many Requests"
    else str "Internal Server Error"

-- `payload['error']['message']`
abbrev pub member : Str → Json → Option Json
member key (obj fs) = get_field key fs
member key _ = none

abbrev pub message_of : Json → Option Json
message_of payload = member (str "error") payload >>= member (str "message")

-- the text of an answer
abbrev pub body_text : Runtime → Body → Option Str
body_text R (json v) = R.decode (R.encode (R.dumps v))
body_text R (plain s) = R.decode (R.encode s)
body_text R _ = none

module _ (R : Runtime) (call : Call) where
  unfoldable pub error_line : Response → Str
  error_line r = elim (body_text R r.body >>= R.loads >>= message_of) [
    | none ↦
        red (str "[-] HTTP Error [" ++ (decimal r.status ++ (str "]: " ++ reason_phrase r.status)))
    | some message ↦
        red (str "[-] Error [" ++ (decimal r.status ++ (str "]: " ++ str_value R call message)))
  ]

  unfoldable pub read_response : Response → Reply
  read_response r =
      if leb 400 r.status
      then stopped (error_line r ∷ [])
      else elim (body_text R r.body >>= R.loads) [ none ↦ stopped [] | some v ↦ answered v ]

unfoldable pub connection_error : Str → Str
connection_error mx2_url =
    red (
      str "[-] Connection Error: Can't reach MX2 daemon at " ++ (mx2_url ++ str ". Is it running?"))

-- Where the daemon listens, and whether it can be reached.
module _ (R : Runtime) (call : Call) (mx2_url : Str) (reachable : Bool) where
  -- `_request_api`
  unfoldable pub request_api : Str → Fields → Daemon → Reply × Daemon
  request_api endpoint payload d =
      let (response, d') =
        serve R call (post endpoint (R.decode (R.encode (R.dumps (obj payload))))) d in
      if reachable
      then (read_response R call response, d')
      else (stopped (connection_error mx2_url ∷ []), d)
