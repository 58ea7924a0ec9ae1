-- ===== src/Proxy/Smtp/Clients.antt =====
-- Several clients of the SMTP proxy of src/legacy_proxy.py at the same time. asyncio changes the
-- client only where the loop of `handle_client` awaits: at the next line, and after a reply was
-- written, where all that is left of the round is local. So a run is a sequence of rounds, each of
-- some client, and all of them share the content store on the disk.
pub mod Isolation
pub mod Quarantine
use mx2_sandbox.Base.{ℕ, Str, List, [], ◌∷◌, ◌++◌, length, drop, ◌==◌, nat_eq, if◌then◌else◌}
use mx2_sandbox.Json.{Json}
use mx2_sandbox.Runtime.{Runtime}
use mx2_sandbox.Cas.{Store}
use mx2_sandbox.Gateway.Translate.{Fresh}
use mx2_sandbox.Proxy.Smtp.{Session, connected, handle_line}

-- a client by its number, the store, and what all of them posted so far, in its order
pub record Clients : Type 0 where
  pub client : ℕ → Session
  pub shared : Store
  pub sent : List Json

-- every client has just connected
abbrev pub listening : Store → Clients
listening store = record { client = λ i. connected store; shared = store; sent = [] }

-- a client, the line that it reads, and what its round draws
abbrev pub Round : Type 0
Round = ℕ × (Fresh × Str)

abbrev pub on_disk : Store → Session → Session
on_disk store s = record s { cas = store }

module _ (R : Runtime) where
  unfoldable pub run_round : Round → Clients → Clients
  run_round (i, (fresh, line)) p =
      let s = handle_line R fresh line (on_disk p.shared (p.client i)) in
      record {
        client = λ j. if j == i then s else p.client j;
        shared = s.cas;
        sent = p.sent ++ drop (length (p.client i).posted) s.posted;
      }

  unfoldable pub run_rounds : List Round → Clients → Clients
  run_rounds [] p = p
  run_rounds (r ∷ rounds) p = run_rounds rounds (run_round r p)

-- the lines that one client reads
unfoldable pub client_lines : ℕ → List Round → List (Fresh × Str)
client_lines j [] = []
client_lines j ((i, line) ∷ rounds) =
    let rest = client_lines j rounds in if j == i then line ∷ rest else rest
