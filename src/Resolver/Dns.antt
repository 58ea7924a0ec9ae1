-- ===== src/Resolver/Dns.antt =====
-- src/dns_resolver.py: the keys and the gateways of domains. An answer of dnspython is an argument:
-- the strings of the TXT records in order, `none` for one that is no UTF-8; the fields of the first
-- SRV record. It is `none` without dnspython, and for an exception.
pub mod Records
use mx2_sandbox.Base.{
  ℕ, Str, str, Bool, true, false, not, ◌&&◌, Option, none, some, List, [], ◌∷◌, ◌++◌, map, contains,
  nat_eq, list_eq, ◌==◌, if◌then◌else◌,
}
use mx2_sandbox.Base.Dict.{Dict, lookup, insert}
use mx2_sandbox.Base.Text.{lower, strip, rstrip, split, split_once}
use mx2_sandbox.Gateway.Header.{occurs}

-- the keys of KNOWN_DOMAIN_KEYS, which all have one value
abbrev pub known_domains : List Str
known_domains =
    str "trusted.nl"
    ∷ str "utrecht-uni.nl"
    ∷ str "github.com"
    ∷ str "google.com"
    ∷ str "example.com"
    ∷ []

abbrev pub known_key : Str
known_key = str "MCowBQYDK2VwAyEAdS+7fGZ8A1839gBbcD81hS9bV2g327"

pub record DomainKey : Type 0 where
  pub public_key : Str
  pub algorithm : Str

-- `dict(item.split("=", 1) for item in items if "=" in item)`, over the items read so far
unfoldable pub read_items : Dict Str Str → List Str → Dict Str Str
read_items parts [] = parts
read_items parts (item ∷ rest) =
    read_items
      (elim (split_once b'=' item) [ key ∷ value ∷ more ↦ insert key value parts | _ ↦ parts ]) rest

unfoldable pub get_part : Str → Str → Dict Str Str → Str
get_part key default parts = elim (lookup key parts) [ none ↦ default | some v ↦ v ]

unfoldable pub read_key : Str → DomainKey
unfolding read_items get_part split
read_key txt_val =
    let parts = read_items [] (split b';' txt_val) in
    record {
      public_key = strip (get_part (str "pubkey") [] parts);
      algorithm = strip (get_part (str "alg") (str "Ed25519") parts);
    }

abbrev pub is_key_record : Str → Bool
is_key_record txt_val = occurs (str "v=MX2") txt_val && occurs (str "pubkey=") txt_val

-- the loop over the answers, up to a string that is no UTF-8
unfoldable pub first_key : List (Option Str) → Option DomainKey
first_key [] = none
first_key (none ∷ strings) = none
first_key (some txt_val ∷ strings) =
    let rest = first_key strings in if is_key_record txt_val then some (read_key txt_val) else rest

abbrev pub fallback_key : Str → Option DomainKey
fallback_key domain =
    if contains known_domains domain
    then some (record { public_key = known_key; algorithm = str "Ed25519" })
    else none

abbrev pub answered_or : Option DomainKey → Option DomainKey → Option DomainKey
answered_or none fallback = fallback
answered_or (some key) fallback = some key

abbrev pub clean_domain : Str → Str
clean_domain domain = lower (strip domain)

-- `resolve_domain_key`; the query asks for `_mx2key.` and the domain
unfoldable pub resolve_domain_key : (Str → Option (List (Option Str))) → Str → Option DomainKey
resolve_domain_key query domain =
    let name = clean_domain domain in
    answered_or
      (elim (query (str "_mx2key." ++ name)) [ none ↦ none | some strings ↦ first_key strings ])
      (fallback_key name)

pub record Endpoint : Type 0 where
  pub target : Str
  pub port : ℕ
  pub priority : ℕ
  pub weight : ℕ

abbrev pub default_endpoint : Str → Endpoint
default_endpoint domain = record {
  target = str "mx2." ++ domain;
  port = 443;
  priority = 10;
  weight = 10;
}

-- `resolve_gateway_srv`
unfoldable pub resolve_gateway_srv : (Str → Option Endpoint) → Str → Endpoint
unfolding rstrip
resolve_gateway_srv query domain =
    let name = clean_domain domain in
    elim (query (str "_mx2._tcp." ++ name)) [
      | none ↦ default_endpoint name
      | some srv ↦ record srv { target = rstrip (λ c. c == b'.') srv.target }
    ]

-- `verify_dnssec_chain`
unfoldable pub verify_dnssec_chain : Bool → Str → Bool
verify_dnssec_chain dnssec_strict domain =
    if contains known_domains (clean_domain domain) then true else not dnssec_strict
