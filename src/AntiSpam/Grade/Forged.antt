-- ===== src/AntiSpam/Grade/Forged.antt =====
-- Tokens with the mock signature of `verify_vouch_token`, src/anti_spam.py.
use mx2_sandbox.Base.{
  ℕ, ◌≤◌, ◌≡◌, ◌≢◌, refl, Str, str, true, false, ◌||◌, some, [], ◌∷◌, ◌++◌, take, arith, nat_eq,
  list_eq, contains,
}
use mx2_sandbox.Base.Text.{lower, strip}
use mx2_sandbox.Json.{Json, Fields, fields, text, obj, get_or, get_field, truthy}
use mx2_sandbox.Runtime.{Runtime}
use mx2_sandbox.AntiSpam.{Engine, reputable_domains}
use mx2_sandbox.AntiSpam.Vouch.{verify_vouch_token, check_token, expected_sig}
use mx2_sandbox.AntiSpam.Grade.{
  Sender, evaluate_trust_grade, is_on_whitelist, is_reputable, has_vouch, voucher_domain_of,
  by_voucher, vouched_by,
}

-- a token that anyone can write down, with no private key: the mock signature of `github.com`
abbrev pub forged_sig : Str → Str → Str
forged_sig vouched key =
    str "sig_" ++ (str "github.com" ++ (str "_" ++ (vouched ++ (str "_" ++ take 6 key))))

abbrev forged_fields : Str → Str → Str → Fields
forged_fields vouched expires key = fields (
    (str "vouchedDomain", text vouched)
    ∷ (str "voucherDomain", text (str "github.com"))
    ∷ (str "expires", text expires)
    ∷ (str "signature", text (forged_sig vouched key))
    ∷ [])

abbrev pub forged_token : Str → Str → Str → Json
forged_token vouched expires key = obj (forged_fields vouched expires key)

module _ (vouched expires key : Str) where
  forged_lookups :
      let get = get_or (forged_fields vouched expires key) in
      (get (str "vouchedDomain") (text []) ≡ text vouched)
      × (get (str "voucherDomain") (text []) ≡ text (str "github.com"))
      × (get (str "expires") (text (str "0")) ≡ text expires)
      × (get (str "signature") (text []) ≡ text (forged_sig vouched key))
  unfolding get_or get_field list_eq nat_eq
  forged_lookups = (refl, refl, refl, refl)

  forged_voucher : voucher_domain_of (forged_token vouched expires key) ≡ some (str "github.com")
  unfolding voucher_domain_of get_or get_field list_eq nat_eq lower strip
  forged_voucher = refl

forged_is_reputable : contains reputable_domains (str "github.com") ≡ true
unfolding list_eq nat_eq
forged_is_reputable = refl

module _ (R : Runtime) where
  forged_token_verifies :
      (vouched expires key : Str) (now ends : ℕ)
      → R.to_float (text expires) ≡ some ends
      → now ≤ ends
      → verify_vouch_token R (forged_token vouched expires key) key now ≡ true
  unfolding verify_vouch_token check_token expected_sig
  forged_token_verifies vouched expires key now ends h k =
      let (a, b, c, d) = forged_lookups vouched expires key in ground (arith, a, b, c, d)

  -- A sender with a valid signature, who is neither on the whitelist nor of a reputable domain,
  -- and who attaches a token with the mock signature of github.com for any domain, under any key
  -- that is not empty and that the sender supplies, before the token expires, gets the grade of a
  -- sender that github.com vouches for.
  pub forged_token_grade :
      (e : Engine) (s : Sender) (vouched expires : Str) (now ends : ℕ)
      → R.to_float (text expires) ≡ some ends
      → now ≤ ends
      → s.signature_valid ≡ true
      → s.voucher_pubkey ≢ []
      → s.vouch_token ≡ forged_token vouched expires s.voucher_pubkey
      → (is_on_whitelist e s || is_reputable s) ≡ false
      → evaluate_trust_grade R e s now ≡ some (vouched_by (str "github.com"))
  unfolding evaluate_trust_grade has_vouch by_voucher truthy
  forged_token_grade e s vouched expires now ends h k valid key token fresh = ground (
    arith,
    forged_token_verifies vouched expires s.voucher_pubkey now ends h k,
    forged_voucher vouched expires s.voucher_pubkey,
    forged_is_reputable,
  )
