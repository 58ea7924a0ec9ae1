-- ===== src/Tls.antt =====
-- src/tls_manager.py: the certificate of the daemon, its files and the ACME challenges. The
-- directory is a dict from paths to contents, and the disk takes every write.
pub mod Context
pub mod Certificates
use mx2_sandbox.Base.{
  ◌≡◌, ℕ, ◌+◌, ◌*◌, Str, str, Bool, true, false, ◌&&◌, Option, none, some, List, [], ◌∷◌, ◌++◌,
  ◌==◌, nat_eq, list_eq, if◌then◌else◌,
}
use mx2_sandbox.Base.Dict.{Dict, lookup, insert, lookup-insert}

pub record TlsManager : Type 0 where
  pub cert_dir : Str
  pub acme_challenges : Dict Str Str
  pub files : Dict Str Str

-- what an `x509.CertificateBuilder` is told; the times are in microseconds
pub record CertificateBuilder : Type 0 where
  pub subject_name : Dict Str Str
  pub issuer_name : Dict Str Str
  pub certified_key : Str
  pub serial_number : ℕ
  pub not_valid_before : ℕ
  pub not_valid_after : ℕ
  pub alternative_names : List Str

-- The package cryptography and OpenSSL: the public key of a private key, the signed certificate, both
-- as PEM texts, and whether a certificate and a key are loaded as a pair.
pub record X509 : Type 0 where
  pub public_key : Str → Str
  pub sign : CertificateBuilder → Str → Str
  pub loads_pair : Str → Str → Bool

-- what a call draws and reads: a new private key, a serial number and the time
pub record Generated : Type 0 where
  pub private_key : Str
  pub serial : ℕ
  pub now : ℕ

abbrev pub file_exists : Str → TlsManager → Bool
file_exists path m = elim (lookup path m.files) [ none ↦ false | some b ↦ true ]

-- `os.path.join(self.cert_dir, name)`, for a directory that does not end in a slash
abbrev pub in_cert_dir : TlsManager → Str → Str
in_cert_dir m name = m.cert_dir ++ (str "/" ++ name)

abbrev pub own_paths : TlsManager → Str × Str
own_paths m = (in_cert_dir m (str "daemon.crt"), in_cert_dir m (str "daemon.key"))

abbrev pub has_both : Str × Str → TlsManager → Bool
has_both (cert, key) m = file_exists cert m && file_exists key m

abbrev year : ℕ
year = 365 * 86400 * 1000000

abbrev pub self_signed : X509 → Generated → Str → CertificateBuilder
self_signed X g domain =
    let subject =
      (str "commonName", domain) ∷ (str "organizationName", str "MX2 Protocol Development") ∷ [] in
    record {
      subject_name = subject;
      issuer_name = subject;
      certified_key = X.public_key g.private_key;
      serial_number = g.serial;
      not_valid_before = g.now;
      not_valid_after = g.now + year;
      alternative_names = domain ∷ str "localhost" ∷ [];
    }

-- the two files are written, the key first
unfoldable pub write_pair : X509 → Generated → Str → TlsManager → TlsManager
write_pair X g domain m =
    let (cert_path, key_path) = own_paths m in
    let with_key = insert key_path g.private_key m.files in
    record m { files = insert cert_path (X.sign (self_signed X g domain) g.private_key) with_key }

-- `ensure_self_signed_cert`: the paths of the certificate and of the key
unfoldable pub ensure_self_signed_cert :
    X509 → Generated → Str → TlsManager → (Str × Str) × TlsManager
ensure_self_signed_cert X g domain m =
    (own_paths m, if has_both (own_paths m) m then m else write_pair X g domain m)

-- `register_acme_challenge` and `resolve_acme_challenge`
unfoldable pub register_acme_challenge : Str → Str → TlsManager → TlsManager
register_acme_challenge token key_authorization m = record m {
  acme_challenges = insert token key_authorization m.acme_challenges;
}

unfoldable pub resolve_acme_challenge : Str → TlsManager → Option Str
resolve_acme_challenge token m = lookup token m.acme_challenges

resolve_acme_challenge-register_acme_challenge :
    (token other key_authorization : Str) (m : TlsManager)
    → resolve_acme_challenge other (register_acme_challenge token key_authorization m)
      ≡ (if other == token then some key_authorization else resolve_acme_challenge other m)
unfolding resolve_acme_challenge register_acme_challenge
resolve_acme_challenge-register_acme_challenge token other key_authorization m =
    lookup-insert other token key_authorization m.acme_challenges
