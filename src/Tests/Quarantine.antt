-- ===== src/Tests/Quarantine.antt =====
-- The database and the content store on small inputs.
use mx2_sandbox.Base.{ℕ, ◌≡◌, refl, Str, str, some, List, [], ◌∷◌, nat_eq, list_eq}
use mx2_sandbox.Storage.{Database, QueueRow, init_db}
use mx2_sandbox.Storage.Queue.{find_message}
use mx2_sandbox.Base.Dict.{lookup}
use mx2_sandbox.Sql.{select_one}
use mx2_sandbox.Cas.{read, content_hash}
use mx2_sandbox.Tests.Machine.{machine}

abbrev eve : Str
eve = str "Eve <eve@evil.net>"

abbrev eve_row : QueueRow
eve_row = record {
  msg_id = str "m1";
  sender = eve;
  subject = str "hi";
  envelope_json = str "";
  timestamp = 5;
}

abbrev db : Database
db = record init_db { quarantine_queue = eve_row ∷ [] }

eve_held : find_message (str "m1") db ≡ some eve_row
unfolding select_one
eve_held = refl

nothing_there : (b : List ℕ) → read (content_hash machine (str "data")) [] ≡ some b → b ≡ str "data"
unfolding read lookup
nothing_there b found = cc
