-- ===== src/Tests/Certificates.antt =====
-- The TLS manager on a small directory, with a package whose certificate is the public key.
use mx2_sandbox.Base.{
  ◌≡◌, ◌↔◌, refl, Str, str, true, false, [], ◌∷◌, ◌++◌, nat_eq, list_eq, ◌==◌, arith,
}
use mx2_sandbox.Base.Dict.{lookup}
use mx2_sandbox.Tls.{TlsManager, X509, Generated}
use mx2_sandbox.Tls.Context.{create_ssl_context}
use mx2_sandbox.Tls.Certificates.{
  is_some, SignsPairs, IsPaired, IsRefused, create_ssl_context_fails_iff,
}

abbrev public_of : Str → Str
public_of key = str "PUBLIC " ++ key

abbrev x509 : X509
x509 = record {
  public_key = public_of;
  sign = λ b key. b.certified_key;
  loads_pair = λ cert key. cert == public_of key;
}

x509-SignsPairs : SignsPairs x509
x509-SignsPairs b key e = ground arith

abbrev made : Generated
made = record { private_key = str "K1"; serial = 7; now = 1700000000000000 }

abbrev manager : TlsManager
manager = record {
  cert_dir = str "config/certs";
  acme_challenges = [];
  files =
      ((str "config/certs/daemon.crt", public_of (str "K1"))
        ∷ (str "config/certs/daemon.key", str "K1")
        ∷ (str "other.crt", public_of (str "K2"))
        ∷ []);
}

manager-IsPaired : IsPaired x509 manager
unfolding lookup list_eq nat_eq
manager-IsPaired cert key e k = ground (arith, e, k)

create_ssl_context_fails_iff_example :
    let (context, ensured) =
      create_ssl_context x509 made (str "other.crt") (str "config/certs/daemon.key") true manager in
    ((is_some context ≡ false)
      ↔ IsRefused x509 manager (str "other.crt") (str "config/certs/daemon.key"))
    × IsPaired x509 ensured
create_ssl_context_fails_iff_example =
    create_ssl_context_fails_iff x509 x509-SignsPairs made (str "other.crt")
      (str "config/certs/daemon.key") true manager manager-IsPaired

wrong_key_fails :
    is_some
      (create_ssl_context x509 made
        (str "other.crt")
        (str "config/certs/daemon.key")
        true
        manager).0
    ≡ false
unfolding lookup list_eq nat_eq create_ssl_context
wrong_key_fails = refl

wrong_path_falls_back :
    is_some (create_ssl_context x509 made (str "no.crt") (str "no.key") true manager).0 ≡ true
unfolding lookup list_eq nat_eq create_ssl_context
wrong_path_falls_back = refl
