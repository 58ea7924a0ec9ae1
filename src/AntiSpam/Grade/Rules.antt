-- ===== src/AntiSpam/Grade/Rules.antt =====
-- The grades of `evaluate_trust_grade`, src/anti_spam.py, by their criteria.
use mx2_sandbox.Base.{
  ℕ, ◌≡◌, ◌∙◌, ◌↔◌, str, [], Bool, true, false, not, ◌&&◌, ◌||◌, ◌==◌, none, some, arith, nat_eq,
  list_eq, contains,
}
use mathlib.Core.Path.{ap₂}
use mx2_sandbox.Base.Dict.{lookup}
use mx2_sandbox.Runtime.{Runtime}
use mx2_sandbox.Json.{Json, text, obj, get_or, truthy}
use mx2_sandbox.AntiSpam.{Engine, reputable_domains, whitelisted_senders}
use mx2_sandbox.AntiSpam.Vouch.{verify_vouch_token}
use mx2_sandbox.AntiSpam.Grade.{
  Grade, grade_a, grade_b, grade_c, grade_d, grade_e, Destination, inbox, junk, quarantine, Trust,
  Sender, clean, evaluate_trust_grade, is_on_whitelist, is_reputable, has_vouch, voucher_domain_of,
  by_contacts, by_voucher, spoofed_identity, on_whitelist, reputable_domain, vouched_by,
  shared_contact, unknown_sender,
}

-- where the messages of a grade go
abbrev pub route : Grade → Destination
route grade_d = junk
route grade_e = quarantine
route _ = inbox

-- the recipient's contacts list the sender
abbrev pub is_contact : Engine → Sender → Bool
is_contact e s = elim (lookup (clean s.recipient) e.contacts_database) [
  | none ↦ false
  | some contacts ↦ contains contacts (clean s.sender)
]

-- the whitelist has the address or the domain of the sender, or the domain is a reputable one
abbrev pub is_known : Engine → Sender → Bool
is_known e s =
    contains (whitelisted_senders e) (clean s.sender)
    || contains (whitelisted_senders e) (clean s.sender_domain)
    || contains reputable_domains (clean s.sender_domain)

-- the domain that a token names as its voucher is a reputable one
abbrev pub names_reputable : Json → Bool
names_reputable (obj token) = elim (get_or token (str "voucherDomain") (text [])) [
  | text s ↦ contains reputable_domains (clean s)
  | _ ↦ false
]
names_reputable _ = false

-- A token and a key are given, the token is verified with the key, and its voucher is reputable.
abbrev pub is_vouched : Runtime → Sender → ℕ → Bool
is_vouched R s now =
    truthy s.vouch_token
    && not (s.voucher_pubkey == [])
    && verify_vouch_token R s.vouch_token s.voucher_pubkey now
    && names_reputable s.vouch_token

-- the first criterion that a sender meets
abbrev pub first_grade : Bool → Bool → Bool → Bool → Grade
first_grade false known vouched contact = grade_e
first_grade true true vouched contact = grade_a
first_grade true false true contact = grade_b
first_grade true false false true = grade_c
first_grade true false false false = grade_d

-- the tests of the code for a known sender and for a token, as these criteria
known_tests : (e : Engine) (s : Sender) → (is_on_whitelist e s || is_reputable s) ≡ is_known e s
unfolding is_on_whitelist is_reputable
known_tests e s = ground arith

voucher_tests :
    (token : Json)
    → elim (voucher_domain_of token) [
      | none ↦ false
      | some domain ↦ contains reputable_domains domain
    ]
      ≡ names_reputable token
unfolding voucher_domain_of
voucher_tests token = ground arith

module _ (R : Runtime) where
  vouch_tests :
      (s : Sender) (now : ℕ)
      → (has_vouch R s now && elim (voucher_domain_of s.vouch_token) [
        | none ↦ false
        | some domain ↦ contains reputable_domains domain
      ])
        ≡ is_vouched R s now
  unfolding has_vouch
  vouch_tests s now = ground (arith, voucher_tests s.vouch_token)

  grade_tests :
      (e : Engine) (s : Sender) (now : ℕ) (t : Trust)
      → evaluate_trust_grade R e s now ≡ some t
      → (t.destination ≡ route t.grade)
        × (t.grade
            ≡ first_grade s.signature_valid
                (is_on_whitelist e s || is_reputable s)
                (has_vouch R s now && elim (voucher_domain_of s.vouch_token) [
                  | none ↦ false
                  | some domain ↦ contains reputable_domains domain
                ])
                (is_contact e s))
  unfolding evaluate_trust_grade by_contacts by_voucher spoofed_identity on_whitelist
      reputable_domain vouched_by shared_contact unknown_sender
  grade_tests e s now t h = ground arith

  -- If the evaluation returns, the destination is the one of the grade: the quarantine for E, the
  -- junk folder for D, the inbox for the others. The grade is that of the first criterion that the
  -- sender meets: E for an invalid signature; A if the whitelist has the address or the domain of
  -- the sender or the domain is a reputable one; B if a token and a key are given, the token is
  -- verified with that key, and the voucher that it names is a reputable domain; C if the contacts of
  -- the recipient have the sender; D for a sender that meets none.
  pub evaluate_lem :
      (e : Engine) (s : Sender) (now : ℕ) (t : Trust)
      → evaluate_trust_grade R e s now ≡ some t
      → (t.destination ≡ route t.grade)
        × (t.grade
            ≡ first_grade s.signature_valid (is_known e s) (is_vouched R s now) (is_contact e s))
  evaluate_lem e s now t h =
      let (to, grade) = grade_tests e s now t h in
      (
        to,
        grade
            ∙ ap₂
                (λ (known vouched : Bool).
                  first_grade s.signature_valid known vouched (is_contact e s))
                (known_tests e s) (vouch_tests s now),
      )

  -- The evaluation raises exactly for a token that is verified, whose voucher is no text, and that
  -- is looked at: the signature is valid and the sender is neither whitelisted nor reputable.
  pub evaluate_raises :
      (e : Engine) (s : Sender) (now : ℕ)
      → (evaluate_trust_grade R e s now ≡ none) ↔ (
          (s.signature_valid ≡ true)
          × ((is_on_whitelist e s || is_reputable s) ≡ false)
          × (has_vouch R s now ≡ true)
          × (voucher_domain_of s.vouch_token ≡ none))
  unfolding evaluate_trust_grade by_voucher
  evaluate_raises e s now = ground arith

  -- If the evaluation returns, the destination is quarantine exactly if the signature is invalid,
  -- whatever the whitelist, the domain and the token say.
  pub quarantine_iff :
      (e : Engine) (s : Sender) (now : ℕ) (t : Trust)
      → evaluate_trust_grade R e s now ≡ some t
      → (t.destination ≡ quarantine) ↔ (s.signature_valid ≡ false)
  quarantine_iff e s now t h = let (dest, grade) = evaluate_lem e s now t h in ground arith
