-- ===== src/Cas/Laws.antt =====
-- Reading and writing the store of src/cas.py.
use mx2_sandbox.Base.{
  ◌≡◌, refl, ◌∙◌, Str, true, none, some, arith, ◌==◌, nat_eq, list_eq, if◌then◌else◌, Option-cases,
  inl, inr,
}
use mx2_sandbox.Base.Dict.{lookup-insert}
use mx2_sandbox.Runtime.{Runtime, Bytes}
use mx2_sandbox.Cas.{Store, exists, read, write, content_hash, cas_uri}

module _ (R : Runtime) where
  abbrev pub IsSound : Store → Type 0
  IsSound store = (hash : Str) (b : Bytes) → read hash store ≡ some b → content_hash R b ≡ hash

  -- After a write, a file that existed is as it was, and another name has a file exactly if it is the
  -- hash of the content, which is then in the file.
  pub read-write :
      (content : Bytes) (store : Store) (hash : Str)
      → read hash (write R content store).1 ≡ elim (read hash store) [
        | none ↦ if hash == content_hash R content then some content else none
        | some b ↦ some b
      ]
  unfolding read write exists
  read-write content store hash =
      ground (arith, lookup-insert hash (content_hash R content) content store)

  -- If every file of the store has its own hash as its name, so it is after a write, and the write
  -- changes no file that exists.
  pub write-IsSound :
      (content : Bytes) (store : Store)
      → IsSound store
      → IsSound (write R content store).1
        × ((hash : Str) (b : Bytes)
            → read hash store ≡ some b
            → read hash (write R content store).1 ≡ some b)
  write-IsSound content store sound = (
    λ hash b found. ground (arith, read-write content store hash, sound hash b),
    λ hash b found. ground (arith, read-write content store hash),
  )

  hash-write :
      (content : Bytes) (store : Store) → (write R content store).0.0 ≡ content_hash R content
  unfolding write
  hash-write content store = refl

  -- Where the store held no other content of the same hash before: what is read under the hash
  -- that a write returned is the content that was written.
  pub read-write_self :
      (content : Bytes) (store : Store)
      → ((b : Bytes) → read (content_hash R content) store ≡ some b → b ≡ content)
      → read (write R content store).0.0 (write R content store).1 ≡ some content
  read-write_self content store unique = rw (hash-write content store) (
      read-write content store (content_hash R content)
      ∙ elim (Option-cases (read (content_hash R content) store)) [
        | inl absent ↦ ground arith
        | inr (b, found) ↦ rw (found, unique b found) refl
      ])

  exists-write :
      (content : Bytes) (store : Store)
      → exists (content_hash R content) (write R content store).1 ≡ true
  unfolding write exists
  exists-write content store =
      ground (arith, lookup-insert (content_hash R content) (content_hash R content) content store)

  -- A content that is written again leaves the store as it is, and gets the same hash and URI.
  pub write-write :
      (content : Bytes) (store : Store)
      → write R content (write R content store).1 ≡ write R content store
  unfolding write
  write-write content store = ground (arith, exists-write content store)

  pub written-write :
      (content : Bytes) (store : Store)
      → (write R content store).0 ≡ (content_hash R content, cas_uri (content_hash R content))
  unfolding write
  written-write content store = refl

  -- Whatever the store held, the hash of what was written can be read.
  pub read_written :
      (content : Bytes) (store : Store)
      → (b : Bytes) × (read (content_hash R content) (write R content store).1 ≡ some b)
  read_written content store = elim (Option-cases (read (content_hash R content) store)) [
    | inl absent ↦ (content, ground (arith, read-write content store (content_hash R content)))
    | inr (b, found) ↦ (b, ground (arith, read-write content store (content_hash R content)))
  ]
