-- ===== src/Cas.antt =====
-- src/cas.py: the content-addressable store. The storage directory is a dict from file names to
-- contents; nothing else writes to it.
pub mod Laws
use mx2_sandbox.Base.{Str, str, Bool, true, false, Option, none, some, ◌++◌, nat_eq, list_eq}
use mx2_sandbox.Base.Dict.{Dict, lookup, insert}
use mx2_sandbox.Base.Hex.{to_hex}
use mx2_sandbox.Runtime.{Runtime, Bytes}

abbrev pub Store : Type 0
Store = Dict Str Bytes

-- `os.path.exists(os.path.join(self.storage_dir, sha256_hash))`
unfoldable pub exists : Str → Store → Bool
exists hash store = elim (lookup hash store) [ none ↦ false | some b ↦ true ]

-- `read`; `none` stands for the `FileNotFoundError`
unfoldable pub read : Str → Store → Option Bytes
read hash store = lookup hash store

-- `get_path`, below the storage directory
unfoldable pub get_path : Str → Str → Str
get_path storage_dir hash = storage_dir ++ (str "/" ++ hash)

unfoldable pub cas_uri : Str → Str
cas_uri hash = str "cas://sha256/" ++ hash

module _ (R : Runtime) where
  -- `hashlib.sha256(data_bytes).hexdigest()`
  unfoldable pub content_hash : Bytes → Str
  unfolding to_hex
  content_hash b = to_hex (R.sha256 b)

  -- `write`: the hash, the URI and the store
  unfoldable pub write : Bytes → Store → (Str × Str) × Store
  write content store =
      let hash = content_hash content in
      (
        (hash, cas_uri hash),
        elim (exists hash store) [ true ↦ store | false ↦ insert hash content store ],
      )
