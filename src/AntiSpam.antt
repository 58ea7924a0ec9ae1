-- ===== src/AntiSpam.antt =====
-- src/anti_spam.py: the trust engine. The engine is a record that the methods take and return; a
-- call reads the clock once, and is given the reading, in ticks, as `now`.
pub mod Quota
pub mod Pow
pub mod Vouch
pub mod Grade
pub mod Queue
use mx2_sandbox.Base.{ℕ, ◌*◌, ◌^◌, Str, str, Option, none, some, List, [], ◌∷◌, ◌++◌}
use mx2_sandbox.Base.Dict.{Dict}
use mx2_sandbox.Json.{Json}
use mx2_sandbox.Runtime.{Runtime}
use mx2_sandbox.Storage.{Database, get_holding_queue, get_whitelisted_set}

-- a message of the holding queue in memory
pub record Held : Type 0 where
  pub message_id : Str
  pub sender : Str
  pub subject : Str
  pub envelope : Json
  pub timestamp : ℕ

-- The attributes of MX2AntiSpamEngine. Sets are lists of their members; the storage engine is the
-- database that only this engine works on.
pub record Engine : Type 0 where
  pub quota_limit : ℕ
  pub quota_history : Dict (Str × Str) (List ℕ)
  pub holding : List Held
  pub whitelisted : List Str
  pub storage_engine : Option Database
  pub contacts_database : Dict Str (List Str)

abbrev pub reputable_domains : List Str
reputable_domains =
    str "github.com"
    ∷ str "google.com"
    ∷ str "utrecht-uni.nl"
    ∷ str "trusted.nl"
    ∷ str "trusted.com"
    ∷ []

-- `__init__`
abbrev pub new_engine : ℕ → Option Database → Engine
new_engine limit storage = record {
  quota_limit = limit;
  quota_history = [];
  holding = [];
  whitelisted = [];
  storage_engine = storage;
  contacts_database =
      (str "bob@example.com", str "friend@collaborator.com" ∷ str "partner@startup.nl" ∷ []) ∷ [];
}

-- the property `whitelisted_senders`
unfoldable pub whitelisted_senders : Engine → List Str
whitelisted_senders e = elim e.storage_engine [
  | none ↦ e.whitelisted
  | some db ↦ get_whitelisted_set db ++ e.whitelisted
]
