-- ===== src/Tls/Certificates.antt =====
-- The certificate of the daemon in src/tls_manager.py: when it is made, and when a context has it.
use mx2_sandbox.Base.{
  ◌≢◌, ◌↔◌, ◌≡◌, ◌∙◌, refl, Str, str, Bool, true, false, ◌||◌, Option, none, some, [], ◌∷◌, ◌++◌,
  arith, ◌==◌, nat_eq, list_eq, Bool-cases, Option-cases, inl, inr,
}
use mx2_sandbox.Base.Dict.{lookup, insert, lookup-insert}
use mx2_sandbox.Tls.{
  TlsManager, X509, CertificateBuilder, Generated, own_paths, has_both, self_signed, write_pair,
  ensure_self_signed_cert,
}
use mx2_sandbox.Tls.Context.{
  context_of, load_cert_chain, falls_back, context_files, create_ssl_context,
}

abbrev pub is_some : {A : Type 0} → Option A → Bool
is_some none = false
is_some (some a) = true

-- a certificate of a public key is loaded with the private key that signed it
abbrev pub SignsPairs : X509 → Type 0
SignsPairs X =
    (b : CertificateBuilder) (key : Str)
    → b.certified_key ≡ X.public_key key
    → X.loads_pair (X.sign b key) key ≡ true

-- where both own files are there, they are a pair
abbrev pub LoadsOwn : X509 → TlsManager → Type 0
LoadsOwn X m = has_both (own_paths m) m ≡ true → is_some (load_cert_chain X m (own_paths m)) ≡ true

paths-differ : (dir : Str) → ((dir ++ str "/daemon.key") == (dir ++ str "/daemon.crt")) ≡ false
unfolding list_eq nat_eq
paths-differ [] = refl
paths-differ (c ∷ dir) = ground (arith, paths-differ dir)

is_some-context_of :
    (has_version : Bool) (o : Option (Str × Str)) → is_some (context_of has_version o) ≡ is_some o
is_some-context_of has_version none = refl
is_some-context_of has_version (some (cert, key)) = refl

-- Where both own files are there, the certificate is loaded with the key.
abbrev pub IsPaired : X509 → TlsManager → Type 0
IsPaired X m =
    (cert key : Str)
    → lookup (own_paths m).0 m.files ≡ some cert
    → lookup (own_paths m).1 m.files ≡ some key
    → X.loads_pair cert key ≡ true

-- The files that are given are used and are no pair.
abbrev pub IsRefused : X509 → TlsManager → Str → Str → Type 0
IsRefused X m certfile keyfile =
    (certfile ≢ [])
    × (keyfile ≢ [])
    × (cert : Str) × (lookup certfile m.files ≡ some cert)
    × ((key : Str) → lookup keyfile m.files ≡ some key → X.loads_pair cert key ≡ false)

module _ (X : X509) where
  has_both-write_pair :
      (g : Generated) (domain : Str) (m : TlsManager)
      → has_both (own_paths m) (write_pair X g domain m) ≡ true
  unfolding write_pair
  has_both-write_pair g domain m =
      let (cert_path, key_path) = own_paths m in
      let with_key = insert key_path g.private_key m.files in
      ground (
        arith,
        lookup-insert cert_path cert_path (X.sign (self_signed X g domain) g.private_key) with_key,
        lookup-insert key_path cert_path (X.sign (self_signed X g domain) g.private_key) with_key,
        lookup-insert key_path key_path g.private_key m.files,
      )

  both_there :
      (g : Generated) (domain : Str) (m : TlsManager)
      → has_both (own_paths m) m ≡ true
      → ensure_self_signed_cert X g domain m ≡ (own_paths m, m)
  unfolding ensure_self_signed_cert
  both_there g domain m e = rw e refl

  one_missing :
      (g : Generated) (domain : Str) (m : TlsManager)
      → has_both (own_paths m) m ≡ false
      → ensure_self_signed_cert X g domain m ≡ (own_paths m, write_pair X g domain m)
  unfolding ensure_self_signed_cert
  one_missing g domain m e = rw e refl

  there_now :
      (g g' : Generated) (domain domain' : Str) (m : TlsManager)
      → ensure_self_signed_cert X g' domain' (write_pair X g domain m)
        ≡ (own_paths m, write_pair X g domain m)
  unfolding write_pair
  there_now g g' domain domain' m =
      both_there g' domain' (write_pair X g domain m) (has_both-write_pair g domain m)

  -- A certificate that was made once stays, with its key.
  pub ensure_self_signed_cert-ensure_self_signed_cert :
      (g g' : Generated) (domain domain' : Str) (m : TlsManager)
      → ensure_self_signed_cert X g' domain' (ensure_self_signed_cert X g domain m).1
        ≡ ensure_self_signed_cert X g domain m
  ensure_self_signed_cert-ensure_self_signed_cert g g' domain domain' m =
      elim (Bool-cases (has_both (own_paths m) m)) [
        | inl e ↦ rw (both_there g domain m e) (both_there g' domain' m e)
        | inr e ↦ rw (one_missing g domain m e) (there_now g g' domain domain' m)
      ]

  written_cert :
      (g : Generated) (domain : Str) (m : TlsManager)
      → lookup (own_paths m).0 (write_pair X g domain m).files
        ≡ some (X.sign (self_signed X g domain) g.private_key)
  unfolding write_pair
  written_cert g domain m = ground (
    arith,
    lookup-insert (own_paths m).0 (own_paths m).0 (X.sign (self_signed X g domain) g.private_key)
        (insert (own_paths m).1 g.private_key m.files),
  )

  written_key :
      (g : Generated) (domain : Str) (m : TlsManager)
      → lookup (own_paths m).1 (write_pair X g domain m).files ≡ some g.private_key
  unfolding write_pair
  written_key g domain m = ground (
    arith,
    lookup-insert (own_paths m).1 (own_paths m).0 (X.sign (self_signed X g domain) g.private_key)
        (insert (own_paths m).1 g.private_key m.files),
    lookup-insert (own_paths m).1 (own_paths m).1 g.private_key m.files,
    paths-differ m.cert_dir,
  )

  module _ (signs : SignsPairs X) where
    load_cert_chain-write_pair :
        (g : Generated) (domain : Str) (m : TlsManager)
        → load_cert_chain X (write_pair X g domain m) (own_paths m)
          ≡ some (X.sign (self_signed X g domain) g.private_key, g.private_key)
    unfolding load_cert_chain
    load_cert_chain-write_pair g domain m =
        rw
          (
            load_cert_chain,
            written_cert g domain m,
            written_key g domain m,
            signs (self_signed X g domain) g.private_key refl,
          )
          refl

    own_pair-loads :
        (g : Generated) (domain : Str) (m : TlsManager)
        → LoadsOwn X m
        → let (paths, ensured) = ensure_self_signed_cert X g domain m in
          is_some (load_cert_chain X ensured paths) ≡ true
    unfolding ensure_self_signed_cert
    own_pair-loads g domain m paired = elim (Bool-cases (has_both (own_paths m) m)) [
      | inl e ↦ rw (e) (paired e)
      | inr e ↦ rw (e, load_cert_chain-write_pair g domain m) refl
    ]

    write_pair-LoadsOwn :
        (g : Generated) (domain : Str) (m : TlsManager) → LoadsOwn X (write_pair X g domain m)
    unfolding write_pair
    write_pair-LoadsOwn g domain m h = rw (load_cert_chain-write_pair g domain m) refl

    ensure_self_signed_cert-LoadsOwn :
        (g : Generated) (domain : Str) (m : TlsManager)
        → LoadsOwn X m
        → LoadsOwn X (ensure_self_signed_cert X g domain m).1
    ensure_self_signed_cert-LoadsOwn g domain m paired =
        elim (Bool-cases (has_both (own_paths m) m)) [
          | inl e ↦ rw (both_there g domain m e) paired
          | inr e ↦ rw (one_missing g domain m e) (write_pair-LoadsOwn g domain m)
        ]

    context_made :
        (g : Generated) (certfile keyfile : Str) (has_version : Bool) (m : TlsManager)
        → LoadsOwn X m
        → let (context, ensured) = create_ssl_context X g certfile keyfile has_version m in
          (is_some context
            ≡ (falls_back certfile keyfile m || is_some (load_cert_chain X m (certfile, keyfile))))
          × LoadsOwn X ensured
    unfolding create_ssl_context context_files
    context_made g certfile keyfile has_version m paired =
        elim (Bool-cases (falls_back certfile keyfile m)) [
          | inl e ↦ rw e (
            is_some-context_of has_version _ ∙ own_pair-loads g (str "localhost") m paired,
            ensure_self_signed_cert-LoadsOwn g (str "localhost") m paired,
          )
          | inr e ↦ rw e (is_some-context_of has_version _, paired)
        ]

    IsRefused-iff :
        (m : TlsManager) (certfile keyfile : Str)
        → ((falls_back certfile keyfile m || is_some (load_cert_chain X m (certfile, keyfile)))
            ≡ false)
          ↔ IsRefused X m certfile keyfile
    unfolding load_cert_chain
    IsRefused-iff m certfile keyfile = (
      λ h. elim (Option-cases (lookup certfile m.files)) [
        | inl e ↦ absurd (ground (arith, h, e))
        | inr (cert, e) ↦
            (ground (arith, h), ground (arith, h), cert, e, λ key k. ground (arith, h, e, k))
      ],
      λ (given, named, cert, e, fails). elim (Option-cases (lookup keyfile m.files)) [
        | inl k ↦ ground (arith, given, named, e, k)
        | inr (key, k) ↦ ground (arith, given, named, e, k, fails key k)
      ],
    )

    IsPaired-LoadsOwn : (m : TlsManager) → IsPaired X m → LoadsOwn X m
    unfolding load_cert_chain
    IsPaired-LoadsOwn m paired both = elim (Option-cases (lookup (own_paths m).0 m.files)) [
      | inl e ↦ ground (arith, both, e)
      | inr (cert, e) ↦ elim (Option-cases (lookup (own_paths m).1 m.files)) [
        | inl k ↦ ground (arith, both, k)
        | inr (key, k) ↦ ground (arith, e, k, paired cert key e k)
      ]
    ]

    LoadsOwn-IsPaired : (m : TlsManager) → LoadsOwn X m → IsPaired X m
    unfolding load_cert_chain
    LoadsOwn-IsPaired m loads cert key e k = ground (arith, e, k, loads (ground (arith, e, k)))

    -- Where a certificate is loaded with the key that signed it, and the daemon's own two files are
    -- a pair if both are there: the creation of a context fails exactly when both paths are given
    -- and not empty, the file of the certificate is there, and the file of the key is missing or
    -- is not loaded with it; and after it the own files are still a pair if both are there.
    pub create_ssl_context_fails_iff :
        (g : Generated) (certfile keyfile : Str) (has_version : Bool) (m : TlsManager)
        → IsPaired X m
        → let (context, ensured) = create_ssl_context X g certfile keyfile has_version m in
          ((is_some context ≡ false) ↔ IsRefused X m certfile keyfile) × IsPaired X ensured
    create_ssl_context_fails_iff g certfile keyfile has_version m paired =
        let (made, still) =
          context_made g certfile keyfile has_version m (IsPaired-LoadsOwn m paired) in
        (rw made (IsRefused-iff m certfile keyfile), LoadsOwn-IsPaired _ still)
