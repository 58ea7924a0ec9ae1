-- ===== src/Ctl/Request/Laws.antt =====
-- What a request of mx2ctl.py to src/web_server.py sends, and what it reads.
use mx2_sandbox.Base.{
  ℕ, ◌<◌, ◌≤◌, ◌≡◌, refl, Str, str, true, false, some, [], ◌∷◌, ◌++◌, arith, leb, list_eq, nat_eq,
}
use mx2_sandbox.Base.Decimal.{decimal}
use mx2_sandbox.Json.{Json, bool, text, obj, Fields, dict, get_field}
use mx2_sandbox.Runtime.{Runtime, IsLawful}
use mx2_sandbox.Server.{Call, json, send_json, send_error, read_payload, ◌>>=◌}
use mx2_sandbox.Ctl.Terminal.{red}
use mx2_sandbox.Ctl.Request.{message_of, answered, stopped, body_text, read_response, error_line}

not_error : (status : ℕ) → status < 400 → leb 400 status ≡ false
not_error status h = ground arith

is_error : (status : ℕ) → 400 ≤ status → leb 400 status ≡ true
is_error status h = ground arith

abbrev error_body : Str → Str → Str → Call → Json
error_body code message err_type call = dict (
    (str "success", bool false)
    ∷ (
      str "error",
      dict (
          (str "code", text code)
          ∷ (str "message", text message)
          ∷ (str "type", text err_type)
          ∷ (str "details", dict ((str "timestamp", text call.timestamp) ∷ []))
          ∷ []),
    )
    ∷ [])

message_of-error_body :
    (code message err_type : Str) (call : Call)
    → message_of (error_body code message err_type call) ≡ some (text message)
unfolding get_field list_eq nat_eq
message_of-error_body code message err_type call = refl

module _ (R : Runtime) (L : IsLawful R) where
  pub read_payload-sent :
      (payload : Fields)
      → read_payload R (R.decode (R.encode (R.dumps (obj payload)))) ≡ some payload
  unfolding read_payload
  read_payload-sent payload =
      rw (L.decode-encode (R.dumps (obj payload)), L.loads-dumps (obj payload)) refl

  body_json : (v : Json) → (body_text R (json v) >>= R.loads) ≡ some v
  body_json v = rw (L.decode-encode (R.dumps v)) (L.loads-dumps v)

  module _ (call : Call) where
    pub read_response-json :
        (v : Json) (status : ℕ)
        → status < 400
        → read_response R call (send_json v status) ≡ answered v
    unfolding read_response send_json
    read_response-json v status h =
        rw (not_error status h, L.decode-encode (R.dumps v), L.loads-dumps v) refl

    pub read_response-error :
        (code message err_type : Str) (status : ℕ)
        → 400 ≤ status
        → read_response R call (send_error code message err_type status call)
          ≡ stopped (red (str "[-] Error [" ++ (decimal status ++ (str "]: " ++ message))) ∷ [])
    unfolding read_response send_error error_line
    read_response-error code message err_type status h =
        rw
          (
            is_error status h,
            body_json (error_body code message err_type call),
            message_of-error_body code message err_type call,
          )
          refl
