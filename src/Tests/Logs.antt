-- ===== src/Tests/Logs.antt =====
-- A run of the daemon with the log of src/logger.py on a small input, with a codec whose texts hold no end of a line.
use mx2_sandbox.Base.{
  ℕ, ◌+◌, ◌-◌, ◌≡◌, ◌∙◌, ap, refl, Str, str, Bool, true, false, ◌==◌, nat_eq, list_eq,
  if◌then◌else◌, none, some, List, [], ◌∷◌, map, arith,
}
use mx2_sandbox.Base.Text.{is_line_end, splitlines, strip}
use mx2_sandbox.Base.Text.Lines.{IsLine}
use mx2_sandbox.Json.{text, dict}
use mx2_sandbox.Runtime.{Runtime, IsLawful}
use mx2_sandbox.Base.Decimal.{int_of}
use mx2_sandbox.Logger.{Log, Event, log_line, content}
use mx2_sandbox.Logger.Lines.{written}
use mx2_sandbox.Server.{Daemon}
use mx2_sandbox.Server.Routes.{get, post, serve_all}
use mx2_sandbox.Server.Start.{Config, Served, port_of, run_server}
use mx2_sandbox.Server.Start.Records.{requests_of, log_path, run_events, run_server_records}
use mx2_sandbox.Tests.Data.{call_at, daemon}
use mx2_sandbox.Tests.Codec.{dump, load, load-dump}
use mx2_sandbox.Tests.Machine.{machine, machine-IsLawful}

abbrev shift : Str → Str
shift s = map (λ c. c + 0x10000) s

abbrev unshift : Str → Str
unshift s = map (λ c. c - 0x10000) s

unshift-shift : (s : Str) → unshift (shift s) ≡ s
unshift-shift [] = refl
unshift-shift (c ∷ s) = rw (unshift-shift s) (ap (λ x. x ∷ s) (omega arith))

no_end : (c : ℕ) → is_line_end (c + 0x10000) ≡ false
unfolding is_line_end
no_end c = ground arith

shift-IsLine : (s : Str) → IsLine (shift s)
shift-IsLine [] = tt
shift-IsLine (c ∷ s) = (no_end c, shift-IsLine s)

abbrev shifted : Runtime
shifted = record machine {
  dumps = λ v. shift (dump v);
  dumps_indent = λ v. shift (dump v);
  loads = λ s. load (unshift s);
}

shifted-IsLawful : IsLawful shifted
shifted-IsLawful = record {
  loads-dumps = λ v. ap load (unshift-shift (dump v)) ∙ load-dump v;
  loads-dumps_indent = λ v. ap load (unshift-shift (dump v)) ∙ load-dump v;
  decode-encode = machine-IsLawful.decode-encode;
  decode_ignore-encode = machine-IsLawful.decode_ignore-encode;
  b64decode-b64encode = machine-IsLawful.b64decode-b64encode;
  sha256-Is32 = machine-IsLawful.sha256-Is32;
  public-Is32 = machine-IsLawful.public-Is32;
  exchange_shared = machine-IsLawful.exchange_shared;
  decrypt-encrypt = machine-IsLawful.decrypt-encrypt;
}

abbrev log : Log
log = record { log_file_path = none; printed = []; files = [] }

-- a port and no host or log file
abbrev port_alone : Config
port_alone section option = if option == str "port" then some (str "8080") else none

abbrev at_one : Str × Bool
at_one = (str "1", true)

abbrev revoked : Event
revoked = record {
  level = str "INFO";
  component = str "Daemon-Gateway";
  message = str "Revoked envelope ephemeral key for message m1.";
  details = none;
  timestamp = str "2";
  writable = true;
}

-- two requests, of which the line of the second is not written
abbrev two_requests : List Served
two_requests =
    ((call_at 1, get (str "/health")), ([], (str "GET /health", at_one)))
    ∷ (
      (
        call_at 2,
        post (str "/api/revoke")
            (some (shift (dump (dict ((str "messageId", text (str "m1")) ∷ []))))),
      ),
      (revoked ∷ [], (str "POST /api/revoke", (str "2", false))),
    )
    ∷ []

run_server_records_example :
    (after : Daemon × Log) × (run_server shifted port_alone
        (str "/srv")
        at_one
        at_one
        at_one
        two_requests
        (daemon, log)
      ≡ some after)
    × (after.0 ≡ serve_all shifted (requests_of two_requests) daemon)
    × (map shifted.loads (splitlines (content (log_path port_alone (str "/srv")) after.1.files))
        ≡ map
            (λ e. some (log_line e))
            (written (run_events shifted port_alone 8080 at_one at_one at_one two_requests)))
unfolding content list_eq nat_eq port_of int_of strip
run_server_records_example =
    run_server_records shifted shifted-IsLawful (λ v. shift-IsLine (dump v)) port_alone (str "/srv")
      8080 at_one at_one at_one two_requests daemon log refl refl
