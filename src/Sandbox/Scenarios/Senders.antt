-- ===== src/Sandbox/Scenarios/Senders.antt =====
-- The five senders of section 5 of run_sandbox.py, as src/anti_spam.py grades them.
use mx2_sandbox.Base.{
  ℕ, ◌≤◌, ◌≡◌, refl, Str, str, true, false, ◌||◌, none, some, contains, arith, nat_eq, list_eq,
}
use mx2_sandbox.Base.Dict.{lookup}
use mx2_sandbox.Base.Text.{strip, lower, starts_with}
use mx2_sandbox.Json.{text, get_or, get_field, truthy}
use mx2_sandbox.Runtime.{Runtime, Bytes, IsLawful}
use mx2_sandbox.AntiSpam.{Engine, new_engine, reputable_domains}
use mx2_sandbox.AntiSpam.Grade.{
  reputable_domain, vouched_by, shared_contact, unknown_sender, spoofed_identity, has_vouch,
  by_voucher, by_contacts, voucher_domain_of, is_on_whitelist, is_reputable, evaluate_trust_grade,
}
use mx2_sandbox.AntiSpam.Vouch.{verify_vouch_token, check_token, verify_signature, data_to_verify}
use mx2_sandbox.Gateway.Keys.{
  parse_ed25519_private_key, parse_ed25519_public_key, sandbox_key, without_did,
}
use mx2_sandbox.Sandbox.Scenarios.{
  github_scenario, startup_scenario, friend_scenario, stranger_scenario, spoofed_scenario,
  voucher_pubkey, signature_b64, data_to_sign, demo_token, scenario_sender,
}

-- the engine of the demonstration, before it holds anything
abbrev pub demo_engine : Engine
demo_engine = new_engine 100 none

without_did-voucher : strip (without_did voucher_pubkey) ≡ sandbox_key
unfolding without_did strip starts_with
without_did-voucher = refl

module _ (R : Runtime) (L : IsLawful R) where
  voucher_key :
      parse_ed25519_public_key R voucher_pubkey
      ≡ R.ed25519_public (parse_ed25519_private_key R voucher_pubkey)
  unfolding parse_ed25519_public_key
  voucher_key = rw without_did-voucher (ground arith)

  -- the signature on the token verifies
  demo_token_signed :
      (expires : Str)
      → ((k m : Bytes) → R.ed25519_verify (R.ed25519_public k) (R.ed25519_sign k m) m ≡ true)
      → verify_signature R
          (text (str "trusted.nl"))
          (text (str "untrusted-startup.net"))
          (text expires)
          (text (signature_b64 R expires))
          voucher_pubkey
        ≡ true
  unfolding verify_signature data_to_verify
  demo_token_signed expires signs =
      rw
        (
          verify_signature,
          L.b64decode-b64encode (
              R.ed25519_sign (parse_ed25519_private_key R voucher_pubkey) (data_to_sign R expires)),
          voucher_key,
        )
        (signs _ _)

  demo_token_verifies :
      (expires : Str) (now ends : ℕ)
      → ((k m : Bytes) → R.ed25519_verify (R.ed25519_public k) (R.ed25519_sign k m) m ≡ true)
      → R.to_float (text expires) ≡ some ends
      → now ≤ ends
      → verify_vouch_token R (demo_token R expires) voucher_pubkey now ≡ true
  unfolding verify_vouch_token demo_token check_token get_or get_field list_eq nat_eq
  demo_token_verifies expires now ends signs e h =
      ground (arith, e, h, demo_token_signed expires signs)

  pub github :
      (now : ℕ)
      → evaluate_trust_grade R demo_engine (scenario_sender R (github_scenario R)) now
        ≡ some reputable_domain
  unfolding evaluate_trust_grade is_on_whitelist is_reputable list_eq strip lower
  github now = refl

  startup_is_new :
      (expires : Str)
      → (is_on_whitelist demo_engine (scenario_sender R (startup_scenario R expires))
          || is_reputable (scenario_sender R (startup_scenario R expires)))
        ≡ false
  unfolding is_on_whitelist is_reputable list_eq strip lower
  startup_is_new expires = refl

  demo_voucher :
      (expires : Str) → voucher_domain_of (demo_token R expires) ≡ some (str "trusted.nl")
  unfolding voucher_domain_of demo_token get_or get_field list_eq nat_eq lower strip
  demo_voucher expires = refl

  truthy-demo_token : (expires : Str) → truthy (demo_token R expires) ≡ true
  unfolding truthy demo_token
  truthy-demo_token expires = refl

  voucher_is_reputable : contains reputable_domains (str "trusted.nl") ≡ true
  unfolding list_eq nat_eq
  voucher_is_reputable = refl

  pub startup :
      (expires : Str) (now ends : ℕ)
      → ((k m : Bytes) → R.ed25519_verify (R.ed25519_public k) (R.ed25519_sign k m) m ≡ true)
      → R.to_float (text expires) ≡ some ends
      → now ≤ ends
      → evaluate_trust_grade R demo_engine (scenario_sender R (startup_scenario R expires)) now
        ≡ some (vouched_by (str "trusted.nl"))
  unfolding evaluate_trust_grade has_vouch by_voucher
  startup expires now ends signs e h = ground (
    arith,
    startup_is_new expires,
    demo_token_verifies expires now ends signs e h,
    truthy-demo_token expires,
    demo_voucher expires,
    voucher_is_reputable,
  )

  pub friend :
      (now : ℕ)
      → evaluate_trust_grade R demo_engine (scenario_sender R (friend_scenario R)) now
        ≡ some shared_contact
  unfolding evaluate_trust_grade is_on_whitelist is_reputable list_eq strip lower has_vouch truthy
      shared_contact by_contacts lookup
  friend now = refl

  pub stranger :
      (now : ℕ)
      → evaluate_trust_grade R demo_engine (scenario_sender R (stranger_scenario R)) now
        ≡ some unknown_sender
  unfolding evaluate_trust_grade is_on_whitelist is_reputable list_eq strip lower has_vouch truthy
      unknown_sender by_contacts lookup
  stranger now = refl

  pub spoofed :
      (now : ℕ)
      → evaluate_trust_grade R demo_engine (scenario_sender R (spoofed_scenario R)) now
        ≡ some spoofed_identity
  unfolding evaluate_trust_grade
  spoofed now = refl
