-- ===== src/Server/Handlers/Blobs.antt =====
-- `_handle_cas_upload` and `_handle_cas_download` of src/web_server.py.
use mx2_sandbox.Base.{Str, str, true, Option, none, some, [], ◌∷◌, ◌++◌}
use mx2_sandbox.Json.{bool, text, Fields, dict, get_or}
use mx2_sandbox.Runtime.{Runtime, Bytes}
use mx2_sandbox.Cas.{Store, read, write}
use mx2_sandbox.Server.{
  Daemon, Call, Response, send_json, send_error, need_text, read_payload, ◌>>=◌,
}

abbrev pub read_content : Fields → Option Str
read_content payload = need_text (get_or payload (str "content") (text []))

abbrev pub read_hash : Fields → Option Str
read_hash payload = need_text (get_or payload (str "sha256") (text []))

unfoldable pub uploaded : Str × Str → Response
uploaded (hash, uri) =
    send_json
      (dict ((str "success", bool true) ∷ (str "sha256", text hash) ∷ (str "uri", text uri) ∷ []))
      200

unfoldable pub downloaded : Str → Response
downloaded content =
    send_json (dict ((str "success", bool true) ∷ (str "content", text content) ∷ [])) 200

-- the content of the named file
unfoldable pub content_of : Store → Str → Option Bytes
content_of store hash = read hash store

module _ (R : Runtime) (call : Call) where
  -- `_handle_cas_upload`
  unfoldable pub handle_cas_upload : Option Str → Daemon → Response × Daemon
  handle_cas_upload body d = elim (read_payload R body >>= read_content) [
    | none ↦ (
      send_error (str "ERR_CAS_UPLOAD_FAILED")
          (str "Kan bijlage niet uploaden naar CAS-opslag: " ++ call.error_text) (str "server") 500
          call,
      d,
    )
    | some content ↦
        let (names, store) = write R (R.encode content) d.cas in
        (uploaded names, record d { cas = store })
  ]

  -- `_handle_cas_download`
  unfoldable pub handle_cas_download : Option Str → Daemon → Response
  handle_cas_download body d = elim (read_payload R body >>= read_hash >>= content_of d.cas) [
    | none ↦
        send_error (str "ERR_CAS_DOWNLOAD_FAILED")
          (str "Hash niet gevonden of kon niet worden gelezen: " ++ call.error_text)
          (str "validation") 404 call
    | some b ↦ downloaded (R.decode_ignore b)
  ]
