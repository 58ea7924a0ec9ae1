-- ===== src/Resolver/Did.antt =====
-- src/did_resolver.py: the resolver of decentralized identifiers and its cache. The clock and the
-- HTTPS request are arguments: `fetch url` is what `json.loads` gives for the answer, and `none` for
-- an exception. `None` is the JSON value `null`.
pub mod Cache
use mx2_sandbox.Base.{
  ℕ, ◌+◌, Str, str, Bool, true, false, not, Option, none, some, List, [], ◌∷◌, ◌++◌, ltb, drop,
  ◌==◌, nat_eq, list_eq, if◌then◌else◌,
}
use mx2_sandbox.Base.Dict.{Dict, lookup, insert, erase}
use mx2_sandbox.Base.Text.{strip, starts_with, split, join}
use mx2_sandbox.Json.{Json, null, text, arr, items, dict, truthy}

-- DIDCache: the documents, each with the time at which it expires
pub record DidCache : Type 0 where
  pub ttl : ℕ
  pub entries : Dict Str (Json × ℕ)

-- `get`, which deletes an expired entry
unfoldable pub get_cached : Str → ℕ → DidCache → Option Json × DidCache
get_cached did now cache = elim (lookup did cache.entries) [
  | none ↦ (none, cache)
  | some entry ↦
      if ltb now entry.1
      then (some entry.0, cache)
      else (none, record cache { entries = erase did cache.entries })
]

-- `set`
unfoldable pub set_cached : Str → Json → ℕ → DidCache → DidCache
set_cached did doc now cache = record cache {
  entries = insert did (doc, now + cache.ttl) cache.entries;
}

-- `clear`
unfoldable pub clear_cache : DidCache → DidCache
clear_cache cache = record cache { entries = [] }

-- `_build_did_document`
unfoldable pub build_did_document : Str → Str → Str → Json
build_did_document did pubkey key_type =
    let key_id = text (did ++ str "#key-1") in
    dict (
      (
        str "@context",
        arr (
            items (
              text (str "https://www.w3.org/ns/did/v1")
              ∷ text (str "https://w3id.org/security/suites/ed25519-2020/v1")
              ∷ [])),
      )
      ∷ (str "id", text did)
      ∷ (
        str "verificationMethod",
        arr (
            items (
              dict (
                (str "id", key_id)
                ∷ (str "type", text key_type)
                ∷ (str "controller", text did)
                ∷ (str "publicKeyBase64", text pubkey)
                ∷ [])
              ∷ [])),
      )
      ∷ (str "authentication", arr (items (key_id ∷ [])))
      ∷ (str "keyAgreement", arr (items (key_id ∷ [])))
      ∷ [])

-- `_resolve_did_web`
unfoldable pub resolve_did_web : (Str → Option Json) → Str → Str → Json
resolve_did_web fetch did domain =
    elim (fetch (str "https://" ++ (domain ++ str "/.well-known/did.json"))) [
      | none ↦
          build_did_document did (str "MCowBQYDK2VwAyEAdS+7fGZ8A1839gBbcD81hS9bV2g327")
            (str "Ed25519VerificationKey2020")
      | some doc ↦ doc
    ]

-- `parts[n] if len(parts) > n else ""`
abbrev pub part : ℕ → List Str → Str
part n parts = elim (drop n parts) [ [] ↦ [] | w ∷ ws ↦ w ]

-- the document by the method of the DID
unfoldable pub document_of : (Str → Option Json) → Str → Json
document_of fetch did =
    let parts = split b':' did in
    let method = part 1 parts in
    if method == str "mx2"
    then build_did_document did (join (str ":") (drop 2 parts)) (str "X25519KeyAgreementKey2020")
    else if method == str "key"
    then build_did_document did (part 2 parts) (str "Ed25519VerificationKey2020")
    else if method == str "web"
    then resolve_did_web fetch did (part 2 parts)
    else null

unfoldable pub resolve_fresh : (Str → Option Json) → Str → ℕ → DidCache → Json × DidCache
resolve_fresh fetch did now cache =
    let doc = document_of fetch did in
    (doc, if truthy doc then set_cached did doc now cache else cache)

-- `if cached: return cached`
abbrev pub cached_or : Option Json → Json → Json
cached_or none fresh = fresh
cached_or (some doc) fresh = if truthy doc then doc else fresh

abbrev pub has_cached : Option Json → Bool
has_cached none = false
has_cached (some doc) = truthy doc

-- `resolve`
unfoldable pub resolve : (Str → Option Json) → Str → ℕ → DidCache → Json × DidCache
resolve fetch raw now cache =
    let did = strip raw in
    let (cached, kept) = get_cached did now cache in
    let (fresh, stored) = resolve_fresh fetch did now kept in
    if starts_with did (str "did:")
    then (cached_or cached fresh, if has_cached cached then kept else stored)
    else (null, cache)
