-- ===== src/Server/Routes/Contents.antt =====
-- The content store under requests to src/web_server.py.
use mx2_sandbox.Base.{
  ◌≡◌, ◌∙◌, ap, refl, Str, str, Option, some, List, [], ◌∷◌, arith, list_eq, nat_eq, Option-cases,
  inl, inr,
}
use mx2_sandbox.Runtime.{Runtime, Bytes, IsLawful}
use mx2_sandbox.Cas.{read, write, content_hash}
use mx2_sandbox.Cas.Laws.{read-write_self}
use mx2_sandbox.Gateway.Body.Growth.{Keeps, write-Keeps}
use mx2_sandbox.Server.{Daemon, Call, read_payload, ◌>>=◌}
use mx2_sandbox.Server.Translate.Growth.{handle_translate-Keeps}
use mx2_sandbox.Server.Handlers.Queue.{
  approve_reply, reject_reply, handle_queue_approve, handle_queue_reject,
}
use mx2_sandbox.Server.Handlers.Blobs.{
  read_content, read_hash, downloaded, content_of, handle_cas_upload, handle_cas_download,
}
use mx2_sandbox.Server.Routes.{
  Endpoint, Request, get, head, post, call_endpoint, endpoint_of, url_path, serve, serve_all,
}

module _ (R : Runtime) where
  module _ (call : Call) where
    upload-Keeps :
        (body : Option Str) (d : Daemon) → Keeps d.cas (handle_cas_upload R call body d).1.cas
    unfolding handle_cas_upload
    upload-Keeps body d hash c found = elim (Option-cases (read_payload R body >>= read_content)) [
      | inl bad ↦ rw (handle_cas_upload, bad) found
      | inr (content, good) ↦
          rw (handle_cas_upload, good) (write-Keeps R (R.encode content) d.cas hash c found)
    ]

    cas-approve :
        (body : Option Str) (d : Daemon) → (handle_queue_approve R call body d).1.cas ≡ d.cas
    unfolding handle_queue_approve approve_reply
    cas-approve body d = ground arith

    cas-reject :
        (body : Option Str) (d : Daemon) → (handle_queue_reject R call body d).1.cas ≡ d.cas
    unfolding handle_queue_reject reject_reply
    cas-reject body d = ground arith

    call_endpoint-Keeps :
        (e : Endpoint) (path : Str) (body : Option Str) (d : Daemon)
        → Keeps d.cas (call_endpoint R call e path body d).1.cas
    unfolding call_endpoint
    call_endpoint-Keeps e path body d hash c found = ground (
      arith,
      handle_translate-Keeps R call body d hash c found,
      upload-Keeps body d hash c found,
      cas-approve body d,
      cas-reject body d,
    )

    serve-Keeps : (q : Request) (d : Daemon) → Keeps d.cas (serve R call q d).1.cas
    unfolding serve
    serve-Keeps (get target) d hash c found = found
    serve-Keeps head d hash c found = found
    serve-Keeps (post target body) d hash c found = call_endpoint-Keeps _ _ body _ hash c found

  -- No sequence of requests removes a content from the store or changes it.
  pub serve_all-Keeps :
      (requests : List (Call × Request)) (d : Daemon) (hash : Str) (c : Bytes)
      → read hash d.cas ≡ some c
      → read hash (serve_all R requests d).cas ≡ some c
  unfolding serve_all
  serve_all-Keeps [] d hash c found = found
  serve_all-Keeps ((call, q) ∷ requests) d hash c found =
      serve_all-Keeps requests _ hash c (serve-Keeps call q d hash c found)

  upload_reads :
      (call : Call) (body : Option Str) (content : Str) (d : Daemon)
      → (read_payload R body >>= read_content) ≡ some content
      → ((b : Bytes)
          → read (content_hash R (R.encode content)) d.cas ≡ some b
          → b ≡ R.encode content)
      → read (content_hash R (R.encode content)) (handle_cas_upload R call body d).1.cas
        ≡ some (R.encode content)
  unfolding handle_cas_upload content_hash write
  upload_reads call body content d sent unique =
      rw (handle_cas_upload, sent) (read-write_self R (R.encode content) d.cas unique)

  download_lem :
      (call : Call) (body : Option Str) (hash : Str) (c : Bytes) (d : Daemon)
      → (read_payload R body >>= read_hash) ≡ some hash
      → read hash d.cas ≡ some c
      → handle_cas_download R call body d ≡ downloaded (R.decode_ignore c)
  unfolding handle_cas_download content_of
  download_lem call body hash c d asked found = rw (handle_cas_download, asked, found) refl

-- With lawful codecs, and where the store held no other content of the same hash before: a content
-- that was uploaded is what the download of its hash returns after any sequence of requests.
pub download-upload :
    (R : Runtime) (L : IsLawful R) (call later : Call) (requests : List (Call × Request))
    (up down : Option Str) (content : Str) (d : Daemon)
    → (read_payload R up >>= read_content) ≡ some content
    → (read_payload R down >>= read_hash) ≡ some (content_hash R (R.encode content))
    → ((b : Bytes) → read (content_hash R (R.encode content)) d.cas ≡ some b → b ≡ R.encode content)
    → (serve R later
        (post (str "/api/cas/download") down)
        (serve_all R ((call, post (str "/api/cas/upload") up) ∷ requests) d)).0
      ≡ downloaded content
unfolding serve serve_all call_endpoint endpoint_of url_path list_eq nat_eq
download-upload R L call later requests up down content d sent asked unique =
    download_lem R later down (content_hash R (R.encode content)) (R.encode content) _ asked
      (serve_all-Keeps R requests _ _ _ (upload_reads R call up content _ sent unique))
    ∙ ap downloaded (L.decode_ignore-encode content)
