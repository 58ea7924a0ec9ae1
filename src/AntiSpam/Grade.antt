-- ===== src/AntiSpam/Grade.antt =====
-- `evaluate_trust_grade` of src/anti_spam.py.
pub mod Rules
pub mod Forged
use mx2_sandbox.Base.{
  ℕ, Str, str, Bool, true, false, not, ◌&&◌, ◌||◌, Option, none, some, List, [], ◌∷◌, ◌++◌, ◌==◌,
  nat_eq, list_eq, contains, if◌then◌else◌,
}
use mx2_sandbox.Base.Dict.{lookup}
use mx2_sandbox.Base.Text.{lower, strip}
use mx2_sandbox.Json.{Json, text, obj, get_or, truthy}
use mx2_sandbox.Runtime.{Runtime}
use mx2_sandbox.AntiSpam.{Engine, reputable_domains, whitelisted_senders}
use mx2_sandbox.AntiSpam.Vouch.{verify_vouch_token}

pub data Grade : Type 0 where
  grade_a grade_b grade_c grade_d grade_e : Grade

pub data Destination : Type 0 where
  inbox junk quarantine : Destination

pub record Trust : Type 0 where
  pub grade : Grade
  pub destination : Destination
  pub reason : Str

-- The arguments of the method. `vouch_token` is a JSON value, `null` for None.
pub record Sender : Type 0 where
  pub sender : Str
  pub sender_domain : Str
  pub recipient : Str
  pub vouch_token : Json
  pub voucher_pubkey : Str
  pub signature_valid : Bool

-- `s.lower().strip()`
abbrev pub clean : Str → Str
clean s = strip (lower s)

-- the dicts that the method returns
unfoldable pub spoofed_identity : Trust
spoofed_identity = record {
  grade = grade_e;
  destination = quarantine;
  reason =
      str "Authenticatiefout: handtekening van afzender komt niet overeen met DNS/DID-sleutel.";
}

unfoldable pub on_whitelist : Trust
on_whitelist = record {
  grade = grade_a;
  destination = inbox;
  reason = str "Zender staat expliciet op de whitelist van de ontvanger.";
}

unfoldable pub reputable_domain : Trust
reputable_domain = record {
  grade = grade_a;
  destination = inbox;
  reason = str "Gevestigde domeinreputatie via DNSSEC/DID-verificatie.";
}

unfoldable pub vouched_by : Str → Trust
vouched_by voucher_domain = record {
  grade = grade_b;
  destination = inbox;
  reason =
      str "Nieuw domein succesvol geverifieerd via Vouching Token van '"
      ++ (voucher_domain ++ str "'.");
}

unfoldable pub shared_contact : Trust
shared_contact = record {
  grade = grade_c;
  destination = inbox;
  reason = str "Gemeenschappelijk contact of gedeelde connectie gevonden in sociaal netwerk.";
}

unfoldable pub unknown_sender : Trust
unknown_sender = record {
  grade = grade_d;
  destination = junk;
  reason =
      str "Onbekende afzender met geldige cryptografische handtekening, maar zonder WoT-garantie.";
}

-- `vouch_token.get("voucherDomain", "").lower().strip()`; `none` for the `AttributeError` of a
-- value that is no text
unfoldable pub voucher_domain_of : Json → Option Str
voucher_domain_of (obj token) = elim (get_or token (str "voucherDomain") (text [])) [
  | text s ↦ some (clean s)
  | _ ↦ none
]
voucher_domain_of _ = none

-- Grade C, else grade D
unfoldable pub by_contacts : Engine → Sender → Trust
by_contacts e s = elim (lookup (clean s.recipient) e.contacts_database) [
  | none ↦ unknown_sender
  | some contacts ↦ if contains contacts (clean s.sender) then shared_contact else unknown_sender
]

-- Grade B for the domain of a verified voucher, else what follows
unfoldable pub by_voucher : Option Str → Trust → Option Trust
by_voucher none rest = none
by_voucher (some domain) rest =
    if contains reputable_domains domain then some (vouched_by domain) else some rest

unfoldable pub is_on_whitelist : Engine → Sender → Bool
unfolding whitelisted_senders
is_on_whitelist e s =
    contains (whitelisted_senders e) (clean s.sender)
    || contains (whitelisted_senders e) (clean s.sender_domain)

unfoldable pub is_reputable : Sender → Bool
is_reputable s = contains reputable_domains (clean s.sender_domain)

module _ (R : Runtime) where
  -- `if vouch_token and voucher_pubkey: if self.verify_vouch_token(…)`
  unfoldable pub has_vouch : Sender → ℕ → Bool
  has_vouch s now =
      truthy s.vouch_token
      && (not (s.voucher_pubkey == []) && verify_vouch_token R s.vouch_token s.voucher_pubkey now)

  -- `evaluate_trust_grade`; `none` stands for an `AttributeError`.
  unfoldable pub evaluate_trust_grade : Engine → Sender → ℕ → Option Trust
  evaluate_trust_grade e s now =
      if not s.signature_valid
      then some spoofed_identity
      else if is_on_whitelist e s
      then some on_whitelist
      else if is_reputable s
      then some reputable_domain
      else if has_vouch s now
      then by_voucher (voucher_domain_of s.vouch_token) (by_contacts e s)
      else some (by_contacts e s)
