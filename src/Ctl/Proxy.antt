-- ===== src/Ctl/Proxy.antt =====
-- `cmd_proxy` of mx2ctl.py over the proxies of src/legacy_proxy.py, up to its interrupt.
use mx2_sandbox.Base.{Str, str, Bool, ◌&&◌, List, [], ◌∷◌, ◌++◌, if◌then◌else◌}
use mx2_sandbox.Runtime.{Runtime}
use mx2_sandbox.Cas.{Store}
use mx2_sandbox.Server.{Daemon, Call}
use mx2_sandbox.Proxy.Smtp.Clients.{Round, listening, run_rounds}
use mx2_sandbox.Proxy.Smtp.Delivery.{post_all}
use mx2_sandbox.Ctl.Terminal.{Ran, cyan, green, yellow}

abbrev pub proxy_banner : Str → List Str
proxy_banner mx2_url =
    cyan (str "[*] Starting MX2 Legacy SMTP/IMAP Loopback Proxy...")
    ∷ str "    - SMTP Proxy listening on 127.0.0.1:10025"
    ∷ str "    - IMAP Proxy listening on 127.0.0.1:10143"
    ∷ (str "    - Target REST Gateway: " ++ mx2_url)
    ∷ []

-- the empty line is the line feed that the last text begins with
abbrev pub proxy_lines : List Str
proxy_lines =
    green (str "[+] Proxies active. Press Ctrl+C to terminate.")
    ∷ []
    ∷ yellow (str "[*] Proxy stopped.")
    ∷ []

-- The two ports are free or not: `start` raises an exception that nothing catches. The rounds are
-- those of the SMTP clients up to the interrupt; the sessions of the IMAP proxy touch nothing else.
unfoldable pub cmd_proxy :
    Runtime → Str → Bool × Bool → List (Call × Bool) → List Round → Store → Daemon → Ran
cmd_proxy R mx2_url (smtp_free, imap_free) calls rounds store d =
    if smtp_free && imap_free
    then record {
      printed = proxy_banner mx2_url ++ proxy_lines;
      exit_code = 0;
      daemon = post_all R calls (run_rounds R rounds (listening store)).sent d;
    }
    else record { printed = proxy_banner mx2_url; exit_code = 1; daemon = d }
