-- ===== src/Resolver/Did/Cache.antt =====
-- The answers of src/did_resolver.py with its cache and without.
use mx2_sandbox.Base.{
  List, [], ◌∷◌, ℕ, ◌+◌, ◌≡◌, ◌≢◌, Str, str, true, Option, none, some, ltb, arith, nat_eq, list_eq,
  if◌then◌else◌, Option-cases, inl, inr,
}
use mx2_sandbox.Base.Dict.{Dict, lookup, lookup-insert, lookup-erase}
use mx2_sandbox.Base.Text.{strip, starts_with, split}
use mx2_sandbox.Json.{Json, truthy}
use mx2_sandbox.Resolver.Did.{
  DidCache, get_cached, set_cached, document_of, resolve_fresh, resolve, part,
}

-- A DID whose document depends on the DID alone.
abbrev pub IsStatic : Str → Type 0
IsStatic did = part 1 (split b':' did) ≢ str "web"

document_of_static :
    (fetch fetch' : Str → Option Json) (did : Str)
    → IsStatic did
    → document_of fetch did ≡ document_of fetch' did
unfolding document_of
document_of_static fetch fetch' did h = ground arith

-- Every entry of a static DID holds its document.
abbrev pub IsFaithful : DidCache → Type 0
IsFaithful cache =
    (fetch : Str → Option Json) (did : Str) (doc : Json) (expiry : ℕ)
    → IsStatic did
    → lookup did cache.entries ≡ some (doc, expiry)
    → doc ≡ document_of fetch did

IsFaithful-get_cached :
    (did : Str) (now : ℕ) (cache : DidCache)
    → IsFaithful cache
    → IsFaithful (get_cached did now cache).1
unfolding get_cached
IsFaithful-get_cached did now cache h fetch j doc expiry static found =
    elim (Option-cases (lookup did cache.entries)) [
      | inl absent ↦ h fetch j doc expiry static (ground (arith, absent, found))
      | inr (entry, held) ↦
          h fetch j doc expiry static
            (ground (arith, held, found, lookup-erase j did cache.entries))
    ]

IsFaithful-set_cached :
    (fetch : Str → Option Json) (did : Str) (now : ℕ) (cache : DidCache)
    → IsFaithful cache
    → IsFaithful (set_cached did (document_of fetch did) now cache)
unfolding set_cached
IsFaithful-set_cached fetch did now cache h fetch' j doc expiry static found = ground (
  arith,
  found,
  lookup-insert j did (document_of fetch did, now + cache.ttl) cache.entries,
  document_of_static fetch fetch' did,
  h fetch' j doc expiry static,
)

IsFaithful-resolve :
    (fetch : Str → Option Json) (raw : Str) (now : ℕ) (cache : DidCache)
    → IsFaithful cache
    → IsFaithful (resolve fetch raw now cache).1
unfolding resolve resolve_fresh
IsFaithful-resolve fetch raw now cache h fetch' j doc expiry static found =
    let kept = IsFaithful-get_cached (strip raw) now cache h in
    ground (
      arith,
      found,
      h fetch' j doc expiry static,
      kept fetch' j doc expiry static,
      IsFaithful-set_cached fetch (strip raw) now (get_cached (strip raw) now cache).1 kept fetch' j
          doc expiry static,
    )

answer_static :
    (fetch : Str → Option Json) (raw : Str) (now : ℕ) (cache : DidCache)
    → IsFaithful cache
    → IsStatic (strip raw)
    → starts_with (strip raw) (str "did:") ≡ true
    → (resolve fetch raw now cache).0 ≡ document_of fetch (strip raw)
unfolding resolve resolve_fresh get_cached
answer_static fetch raw now cache h static did =
    elim (Option-cases (lookup (strip raw) cache.entries)) [
      | inl absent ↦ ground (arith, absent)
      | inr (entry, held) ↦ ground (arith, held, h fetch (strip raw) entry.0 entry.1 static held)
    ]

-- what a call of `resolve` is given: what the request answers, the identifier, and the time
abbrev pub Lookup : Type 0
Lookup = (Str → Option Json) × Str × ℕ

pub resolve_all : List Lookup → DidCache → DidCache
resolve_all [] cache = cache
resolve_all ((fetch, raw, now) ∷ lookups) cache =
    resolve_all lookups (resolve fetch raw now cache).1

IsFaithful-resolve_all :
    (lookups : List Lookup) (cache : DidCache)
    → IsFaithful cache
    → IsFaithful (resolve_all lookups cache)
unfolding resolve_all
IsFaithful-resolve_all [] cache h = h
IsFaithful-resolve_all ((fetch, raw, now) ∷ lookups) cache h =
    IsFaithful-resolve_all lookups (resolve fetch raw now cache).1
      (IsFaithful-resolve fetch raw now cache h)

absurd_lookup :
    {A : Type 0} (did : Str) (entry : Json × ℕ) (entries : Dict Str (Json × ℕ))
    → entries ≡ []
    → lookup did entries ≡ some entry
    → A
unfolding lookup
absurd_lookup did entry [] empty found = absurd (ground (arith, found))
absurd_lookup did entry (e ∷ entries) empty found = absurd (ground (arith, empty))

IsFaithful-empty : (cache : DidCache) → cache.entries ≡ [] → IsFaithful cache
IsFaithful-empty cache empty fetch did doc expiry static found =
    absurd_lookup did (doc, expiry) cache.entries empty found

-- From an empty cache, after any calls, the resolver answers for every DID whose method is not web
-- what it answers without a cache, at any time.
pub resolve_transparent :
    (lookups : List Lookup) (fetch : Str → Option Json) (raw : Str) (now : ℕ) (cache : DidCache)
    → cache.entries ≡ []
    → IsStatic (strip raw)
    → starts_with (strip raw) (str "did:") ≡ true
    → (resolve fetch raw now (resolve_all lookups cache)).0 ≡ document_of fetch (strip raw)
resolve_transparent lookups fetch raw now cache empty =
    answer_static fetch raw now (resolve_all lookups cache)
      (IsFaithful-resolve_all lookups cache (IsFaithful-empty cache empty))

-- A DID that is not in the cache, and whose document is not empty, is answered with the document
-- that was made first until the TTL has passed, and then with a new one.
pub resolve-resolve :
    (fetch fetch' : Str → Option Json) (raw : Str) (now later : ℕ) (cache : DidCache)
    → lookup (strip raw) cache.entries ≡ none
    → starts_with (strip raw) (str "did:") ≡ true
    → truthy (document_of fetch (strip raw)) ≡ true
    → (resolve fetch' raw later (resolve fetch raw now cache).1).0 ≡ (
        if ltb later (now + cache.ttl)
        then document_of fetch (strip raw)
        else document_of fetch' (strip raw))
unfolding resolve resolve_fresh get_cached set_cached
resolve-resolve fetch fetch' raw now later cache absent did filled = ground (
  arith,
  lookup-insert (strip raw) (strip raw) (document_of fetch (strip raw), now + cache.ttl)
      cache.entries,
)
