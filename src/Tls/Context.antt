-- ===== src/Tls/Context.antt =====
-- `create_ssl_context` of src/tls_manager.py. An empty text stands for a path that is not given.
use mx2_sandbox.Base.{
  Str, str, Bool, ◌||◌, not, Option, none, some, [], ◌==◌, nat_eq, list_eq, if◌then◌else◌,
}
use mx2_sandbox.Base.Dict.{lookup}
use mx2_sandbox.Server.{◌>>=◌}
use mx2_sandbox.Tls.{TlsManager, X509, Generated, file_exists, ensure_self_signed_cert}

pub data TlsVersion : Type 0 where
  minimum_supported : TlsVersion
  tls_v1_2 : TlsVersion

pub record SslContext : Type 0 where
  pub certificate : Str
  pub certified_key : Str
  pub minimum_version : TlsVersion

-- `context.load_cert_chain`, with `none` for its exceptions
unfoldable pub load_cert_chain : X509 → TlsManager → Str × Str → Option (Str × Str)
load_cert_chain X m (certfile, keyfile) = do
  cert ← lookup certfile m.files
  key ← lookup keyfile m.files
  if X.loads_pair cert key then some (cert, key) else none

-- whether the caller's files are not used
abbrev pub falls_back : Str → Str → TlsManager → Bool
falls_back certfile keyfile m = certfile == [] || (keyfile == [] || not (file_exists certfile m))

unfoldable pub context_files : X509 → Generated → Str → Str → TlsManager → (Str × Str) × TlsManager
unfolding ensure_self_signed_cert
context_files X g certfile keyfile m =
    if falls_back certfile keyfile m
    then ensure_self_signed_cert X g (str "localhost") m
    else ((certfile, keyfile), m)

abbrev pub context_of : Bool → Option (Str × Str) → Option SslContext
context_of has_version none = none
context_of has_version (some (cert, key)) = some (record {
  certificate = cert;
  certified_key = key;
  minimum_version = if has_version then tls_v1_2 else minimum_supported;
})

-- the last argument but one is `hasattr(ssl, "TLSVersion")`
unfoldable pub create_ssl_context :
    X509 → Generated → Str → Str → Bool → TlsManager → Option SslContext × TlsManager
unfolding context_files load_cert_chain
create_ssl_context X g certfile keyfile has_version m =
    let (paths, ensured) = context_files X g certfile keyfile m in
    (context_of has_version (load_cert_chain X ensured paths), ensured)
