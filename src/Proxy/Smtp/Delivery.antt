-- ===== src/Proxy/Smtp/Delivery.antt =====
-- `_post_to_gateway` of src/legacy_proxy.py: the payloads of a session, given to the daemon.
pub mod Quarantine
use mx2_sandbox.Base.{Str, str, Bool, List, [], ◌∷◌, if◌then◌else◌}
use mx2_sandbox.Json.{Json}
use mx2_sandbox.Runtime.{Runtime}
use mx2_sandbox.Server.{Daemon, Call}
use mx2_sandbox.Server.Routes.{post, serve}

-- What a call meets: what the daemon reads, and whether it can be reached. The answer and every
-- exception are dropped.
module _ (R : Runtime) where
  -- `_post_to_gateway`
  unfoldable pub post_to_gateway : Call × Bool → Str → Json → Daemon → Daemon
  post_to_gateway (call, reachable) endpoint payload d =
      let d' = (serve R call (post endpoint (R.decode (R.encode (R.dumps payload)))) d).1 in
      if reachable then d' else d

  -- the payloads in their order, each with its call; a payload without one is not yet posted
  unfoldable pub post_all : List (Call × Bool) → List Json → Daemon → Daemon
  unfolding post_to_gateway
  post_all [] payloads d = d
  post_all calls [] d = d
  post_all (c ∷ calls) (payload ∷ payloads) d =
      post_all calls payloads (post_to_gateway c (str "/api/translate") payload d)
