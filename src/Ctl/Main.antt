-- ===== src/Ctl/Main.antt =====
-- `cmd_resolve` and the choice of a command by `main` of mx2ctl.py. The parser of the options is the
-- library's.
use mx2_sandbox.Base.{ℕ, Str, str, Bool, Option, some, List, [], ◌∷◌, ◌++◌, if◌then◌else◌}
use mx2_sandbox.Base.Text.{starts_with, remove_all}
use mx2_sandbox.Gateway.Keys.{did_prefix}
use mx2_sandbox.Runtime.{Runtime}
use mx2_sandbox.Cas.{Store}
use mx2_sandbox.Server.{Daemon, Call}
use mx2_sandbox.Proxy.Smtp.Clients.{Round}
use mx2_sandbox.Ctl.Proxy.{cmd_proxy}
use mx2_sandbox.Ctl.Terminal.{Ran, green, yellow, grey}
use mx2_sandbox.Ctl.Mail.{MailArgs, mail_key, cmd_test, cmd_status}
use mx2_sandbox.Ctl.Pow.{PowArgs, cmd_pow}
use mx2_sandbox.Ctl.Queue.{QueueAction, cmd_queue}
use mx2_sandbox.Ctl.Stats.{cmd_stats}

unfoldable pub resolve_lines : Str → List Str
unfolding starts_with remove_all
resolve_lines did =
    yellow (str "[*] Resolving identifier: " ++ (did ++ str "..."))
    ∷ (if starts_with did did_prefix
        then green (str "[+] Resolved direct DID public key: " ++ remove_all did_prefix did) ∷ []
        else grey (str "[-] Querying SRV records for _mx2._tcp." ++ (did ++ str "..."))
          ∷ (str "[+] Found SRV: Port 443 -> mx2." ++ did)
          ∷ grey (str "[-] Querying TXT records for _mx2key." ++ (did ++ str "..."))
          ∷ green (str "[+] Found TXT: v=MX2; k=ed25519; p=" ++ mail_key)
          ∷ [])

-- `cmd_resolve`
unfoldable pub cmd_resolve : Str → Daemon → Ran
unfolding resolve_lines
cmd_resolve did d = record { printed = resolve_lines did; exit_code = 0; daemon = d }

pub data Command : Type 0 where
  status stats proxy : Command
  queue : QueueAction → Option Str → Command
  resolve_did : Str → Command
  test : MailArgs → Command
  pow : PowArgs → Command

-- What the commands read: the fuel and the duration of the search for a nonce, the address of the
-- daemon and whether it can be reached; and of the proxies, whether their ports are free, what each
-- of their posts meets, the rounds of their clients, and the content store.
module _ (R : Runtime) (call : Call) (fuel : ℕ) (elapsed : Str) (mx2_url : Str) (reachable : Bool)
    (ports : Bool × Bool) (posts : List (Call × Bool)) (rounds : List Round) (store : Store) where
  -- `commands[args.command](args)`
  unfoldable pub run_command : Command → Daemon → Option Ran
  run_command status d = some (cmd_status R call mx2_url reachable d)
  run_command stats d = some (cmd_stats R call reachable d)
  run_command proxy d = some (cmd_proxy R mx2_url ports posts rounds store d)
  run_command (queue action msg_id) d = some (cmd_queue R call mx2_url reachable action msg_id d)
  run_command (resolve_did did) d = some (cmd_resolve did d)
  run_command (test args) d = some (cmd_test R call mx2_url reachable args d)
  run_command (pow args) d = cmd_pow R call mx2_url reachable fuel elapsed args d
