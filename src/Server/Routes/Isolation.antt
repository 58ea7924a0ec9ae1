-- ===== src/Server/Routes/Isolation.antt =====
-- Which parts of the daemon of src/web_server.py a request may change.
use mx2_sandbox.Base.{
  ◌≡◌, refl, ◌+◌, Str, str, Bool, false, ◌||◌, ◌==◌, nat_eq, list_eq, Option, arith,
}
use mx2_sandbox.Runtime.{Runtime}
use mx2_sandbox.Metrics.{inc_api_requests}
use mx2_sandbox.Server.{Daemon, Call}
use mx2_sandbox.Server.Routes.{
  Request, get, head, post, counted, call_endpoint, endpoint_of, url_path, serve,
}

-- the paths behind which the trust engine or the content store may change
abbrev pub is_writing : Str → Bool
is_writing path =
    path == str "/api/translate"
    || path == str "/api/queue/approve"
    || path == str "/api/queue/reject"
    || path == str "/api/cas/upload"

abbrev pub may_write : Request → Bool
may_write (get target) = false
may_write head = false
may_write (post target body) = is_writing (url_path target)

-- what the daemon does to the state for a path that is none of these
post_pure :
    (R : Runtime) (call : Call) (path : Str) (body : Option Str) (d : Daemon)
    → is_writing path ≡ false
    → (call_endpoint R call (endpoint_of path) path body d).1 ≡ d
unfolding call_endpoint endpoint_of
post_pure R call path body d h = ground arith

-- A request that is no POST to one of the paths /api/translate, /api/queue/approve,
-- /api/queue/reject and /api/cas/upload changes nothing of the daemon but the counter of requests,
-- which grows by one: a POST to /api/revoke, say, or to a path that the daemon does not know.
pub serve_pure :
    (R : Runtime) (call : Call) (q : Request) (d : Daemon)
    → may_write q ≡ false
    → (serve R call q d).1 ≡ record d {
      metrics = record d.metrics { api_requests_total = d.metrics.api_requests_total + 1 };
    }
unfolding serve inc_api_requests
serve_pure R call (get target) d h = refl
serve_pure R call head d h = refl
serve_pure R call (post target body) d h = post_pure R call (url_path target) body (counted d) h
