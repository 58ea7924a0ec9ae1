-- ===== src/Ctl/Request/Outcome.antt =====
-- What `_request_api` of mx2ctl.py makes of the replies of src/web_server.py.
use mx2_sandbox.Base.{ℕ, ◌≤◌, ◌≡◌, ◌≢◌, ◌⊎◌, refl, Str, str, true, [], ◌∷◌, ◌++◌, arith, inl, inr}
use mx2_sandbox.Base.Decimal.{decimal}
use mx2_sandbox.Json.{bool, obj, Fields, field}
use mx2_sandbox.Runtime.{Runtime, IsLawful}
use mx2_sandbox.Server.{Daemon, Call, Response, send_json, send_error}
use mx2_sandbox.Server.Routes.{post, unknown, endpoint_of, url_path, serve, counted}
use mx2_sandbox.Server.Routes.Contract.{Answers}
use mx2_sandbox.Server.Routes.Contract.Replies.{endpoint_answers}
use mx2_sandbox.Ctl.Terminal.{red}
use mx2_sandbox.Ctl.Request.{Reply, answered, stopped, read_response, request_api}
use mx2_sandbox.Ctl.Request.Laws.{read_response-json, read_response-error}

-- What the command makes of a reply of the daemon: it goes on with the dict of a success, or it
-- stops behind one line with the status and the message of the error that the daemon sent.
abbrev pub IsReadable : Call → Response → Reply → Type 0
IsReadable call response r =
    ((fs : Fields) × (response ≡ send_json (obj (field (str "success") (bool true) fs)) 200)
      × (r ≡ answered (obj (field (str "success") (bool true) fs))))
    ⊎ ((code message kind : Str) × (status : ℕ) × (400 ≤ status)
        × (response ≡ send_error code message kind status call)
        × (r
            ≡ stopped (red (str "[-] Error [" ++ (decimal status ++ (str "]: " ++ message))) ∷ [])))

module _ (R : Runtime) (L : IsLawful R) (call : Call) where
  read_response-IsReadable :
      (r : Response) → Answers call r → IsReadable call r (read_response R call r)
  read_response-IsReadable r (inl (fs, e)) = inl (
    fs,
    e,
    rw e (
        read_response-json R L call (obj (field (str "success") (bool true) fs)) 200 (omega arith)),
  )
  read_response-IsReadable r (inr (code, message, kind, status, h, e)) = inr (
    code,
    message,
    kind,
    status,
    h,
    e,
    rw e (read_response-error R L call code message kind status h),
  )

  -- A request of the command line, over a lawful runtime and a daemon that can be reached, to any
  -- path that the daemon knows, with any payload: either the daemon answers with status 200 and a
  -- dict whose success is true, and the command goes on with exactly that dict; or it answers with
  -- an error of a status of at least 400, and the command stops behind one line, which gives that
  -- status and the message of that error. The state afterwards is the one that the daemon left.
  pub request_api-IsReadable :
      (mx2_url path : Str) (payload : Fields) (d : Daemon)
      → endpoint_of (url_path path) ≢ unknown
      → let (response, after) =
          serve R call (post path (R.decode (R.encode (R.dumps (obj payload))))) d in
        IsReadable call response (request_api R call mx2_url true path payload d).0
        × ((request_api R call mx2_url true path payload d).1 ≡ after)
  unfolding request_api serve
  request_api-IsReadable mx2_url path payload d known = (
    read_response-IsReadable _ (
        endpoint_answers R call (endpoint_of (url_path path)) (url_path path)
          (R.decode (R.encode (R.dumps (obj payload)))) (counted d) known),
    refl,
  )
