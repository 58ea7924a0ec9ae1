-- ===== src/Server.antt =====
-- src/web_server.py: the daemon. A handler takes a request and the daemon, and returns a response
-- and the new daemon; what it logs is not modelled.
pub mod Submission
pub mod Translate
pub mod Handlers
pub mod Routes
pub mod Start
use mx2_sandbox.Base.{
  ℕ, Str, str, Bool, true, false, Option, none, some, List, [], ◌∷◌, ◌++◌, if◌then◌else◌, nat_eq,
  list_eq,
}
use mx2_sandbox.Json.{Json, bool, text, obj, Fields, dict, get_or, truthy}
use mx2_sandbox.Runtime.{Runtime}
use mx2_sandbox.Cas.{Store}
use mx2_sandbox.AntiSpam.{Engine}
use mx2_sandbox.Metrics.{Metrics}
use mx2_sandbox.Gateway.Translate.{Fresh}

-- the class attributes of the handler that the requests work on
pub record Daemon : Type 0 where
  pub anti_spam : Engine
  pub cas : Store
  pub metrics : Metrics

-- What a call reads from outside: the clock, the time as text, what the translation draws, and the
-- text of the exception, if one is raised.
pub record Call : Type 0 where
  pub now : ℕ
  pub timestamp : Str
  pub fresh : Fresh
  pub error_text : Str

pub data Body : Type 0 where
  json : Json → Body
  dashboard : Body
  plain : Str → Body
  no_body : Body

pub record Response : Type 0 where
  pub status : ℕ
  pub body : Body

-- `_send_json`
unfoldable pub send_json : Json → ℕ → Response
send_json content status_code = record { status = status_code; body = json content }

-- `_send_error`
unfoldable pub send_error : Str → Str → Str → ℕ → Call → Response
unfolding send_json
send_error code message err_type status_code call =
    send_json
      (dict (
        (str "success", bool false)
        ∷ (
          str "error",
          dict (
              (str "code", text code)
              ∷ (str "message", text message)
              ∷ (str "type", text err_type)
              ∷ (str "details", dict ((str "timestamp", text call.timestamp) ∷ []))
              ∷ []),
        )
        ∷ []))
      status_code

-- a value that must be a text, with `none` for the exception of another one
abbrev pub need_text : Json → Option Str
need_text (text s) = some s
need_text _ = none

-- a value that may be missing: what is false counts as the empty text
unfoldable pub text_or_empty : Json → Option Str
text_or_empty (text s) = some s
text_or_empty v = if truthy v then none else some []

-- A key that is a number or a truth value verifies no token, as an empty one; a list or a dict for a
-- key is not modelled.
abbrev pub key_text : Json → Str
key_text (text s) = s
key_text _ = []

abbrev pub as_dict : Json → Option Fields
as_dict (obj fs) = some fs
as_dict _ = none

abbrev pub then_dict : Option Json → Option Fields
then_dict none = none
then_dict (some v) = as_dict v

-- `json.loads(self._read_post_body())`, whose `get` wants a dict. The body is `none` where its
-- length or its UTF-8 is bad.
unfoldable pub read_payload : Runtime → Option Str → Option Fields
read_payload R none = none
read_payload R (some body) = then_dict (R.loads body)

infixl 5 ◌>>=◌
abbrev pub ◌>>=◌ : {A B : Type 0} → Option A → (A → Option B) → Option B
none >>= f = none
some a >>= f = f a

abbrev pub or_else : {A : Type 0} → Option A → A → A
or_else none a = a
or_else (some b) a = b
