-- ===== src/Server/Start/Records.antt =====
-- A whole run of the daemon of src/web_server.py, with the requests that it serves and the log that
-- it writes.
use mx2_sandbox.Base.{
  ◌≡◌, ◌≢◌, ◌∙◌, ap, refl, sym, ℕ, Str, str, Bool, some, List, [], ◌∷◌, ◌++◌, map, Bool-cases, inl,
  inr,
}
use mx2_sandbox.Base.Decimal.{decimal}
use mx2_sandbox.Base.Text.{splitlines, starts_with}
use mx2_sandbox.Base.Text.Lines.{IsLine}
use mx2_sandbox.Json.{Json}
use mx2_sandbox.Runtime.{Runtime, IsLawful}
use mx2_sandbox.Logger.{Log, Event, setup_logger, log_event, log_all, log_line, content}
use mx2_sandbox.Logger.Lines.{log_reads_back, written}
use mx2_sandbox.Server.{Daemon, Call, or_else}
use mx2_sandbox.Server.Routes.{Request, serve, serve_all}
use mx2_sandbox.Server.Start.{
  Config, Served, port_of, read_settings, join_path, info, serve_forever, run_server,
}

abbrev pub requests_of : List Served → List (Call × Request)
requests_of served = map (λ (x : Served). x.0) served

-- what the requests log, in their order
abbrev pub request_events : List Served → List Event
request_events [] = []
request_events ((q, (own, (line, at))) ∷ served) =
    own ++ (info (str "Daemon-HTTP") line at ∷ request_events served)

abbrev pub init_event : Str × Bool → Event
init_event at =
    info (str "Daemon-Init") (str "Initializing MX2 Gateway Server (Headless Mode)...") at

abbrev pub listening_event : Str → ℕ → Str × Bool → Event
listening_event host port at =
    info (str "Daemon-Init")
      (str "API Server listening on http://" ++ (host ++ (str ":" ++ decimal port))) at

abbrev pub shutdown_event : Str × Bool → Event
shutdown_event at = info (str "Daemon-Shutdown") (str "Shutting down server...") at

abbrev pub host_of : Config → Str
host_of config = or_else (config (str "daemon") (str "host")) (str "127.0.0.1")

abbrev pub log_path : Config → Str → Str
log_path config base_dir =
    join_path base_dir (or_else (config (str "daemon") (str "log_file")) (str "logs/mx2.log"))

append-ne-nil : (xs ys : Str) (c : ℕ) → (xs ++ c ∷ ys) ≢ []
append-ne-nil [] ys c = λ e. cc
append-ne-nil (x ∷ xs) ys c = λ e. cc

join_path-ne-nil : (base_dir path : Str) → join_path base_dir path ≢ []
unfolding join_path starts_with
join_path-ne-nil base_dir [] = append-ne-nil base_dir [] b'/'
join_path-ne-nil base_dir (c ∷ path) = elim (Bool-cases (starts_with (c ∷ path) (str "/"))) [
  | inl e ↦ rw (join_path, e) (λ h. cc)
  | inr e ↦ rw (join_path, e) (append-ne-nil base_dir (c ∷ path) b'/')
]

module _ (R : Runtime) where
  log_all-append :
      (xs ys : List Event) (log : Log) → log_all R (xs ++ ys) log ≡ log_all R ys (log_all R xs log)
  unfolding log_all
  log_all-append [] ys log = refl
  log_all-append (x ∷ xs) ys log = log_all-append xs ys (log_event R x log)

  serve_forever_lem :
      (served : List Served) (d : Daemon) (log : Log)
      → serve_forever R served (d, log)
        ≡ (serve_all R (requests_of served) d, log_all R (request_events served) log)
  unfolding serve_forever serve_all log_all
  serve_forever_lem [] d log = refl
  serve_forever_lem (((call, q), (own, (line, at))) ∷ served) d log =
      serve_forever_lem served (serve R call q d).1
        (log_event R (info (str "Daemon-HTTP") line at) (log_all R own log))
      ∙ ap (λ (l : Log). (serve_all R (requests_of served) (serve R call q d).1, l))
          (sym (log_all-append own (info (str "Daemon-HTTP") line at ∷ request_events served) log))

  -- what a run logs, in its order
  abbrev pub run_events :
      Config → ℕ → Str × Bool → Str × Bool → Str × Bool → List Served → List Event
  run_events config port first second last served =
      init_event first
      ∷ listening_event (host_of config) port second
      ∷ (request_events served ++ shutdown_event last ∷ [])

  run_server_lem :
      (config : Config) (base_dir : Str) (port : ℕ) (first second last : Str × Bool)
      (served : List Served) (d : Daemon) (log : Log)
      → port_of (config (str "daemon") (str "port")) ≡ some port
      → run_server R config base_dir first second last served (d, log)
        ≡ some (
          serve_all R (requests_of served) d,
          log_all R
              (run_events config port first second last served)
              (setup_logger (log_path config base_dir) log),
        )
  unfolding run_server read_settings log_all
  run_server_lem config base_dir port first second last served d log e =
      rw (run_server, read_settings, e, serve_forever_lem, log_all-append) refl

  -- Over a lawful runtime whose JSON texts hold no end of a line, and where the configured port is a
  -- number and the configured log file is empty or missing: a run of the daemon serves exactly its
  -- requests, in their order, and the lines of the log file, each read as JSON, are exactly the
  -- records of the start, of the address that it listens on, of each request in their order (the
  -- events that its handler logs, which are given, and then its line), and of the shutdown, each
  -- where the file could be opened.
  pub run_server_records :
      IsLawful R
      → ((v : Json) → IsLine (R.dumps v))
      → (config : Config) (base_dir : Str) (port : ℕ) (first second last : Str × Bool)
        (served : List Served) (d : Daemon) (log : Log)
      → port_of (config (str "daemon") (str "port")) ≡ some port
      → content (log_path config base_dir) log.files ≡ []
      → (after : Daemon × Log) × (run_server R config base_dir first second last served (d, log)
          ≡ some after)
        × (after.0 ≡ serve_all R (requests_of served) d)
        × (map R.loads (splitlines (content (log_path config base_dir) after.1.files))
            ≡ map
                (λ e. some (log_line e))
                (written (run_events config port first second last served)))
  unfolding setup_logger
  run_server_records L one_line config base_dir port first second last served d log e empty = (
    _,
    run_server_lem config base_dir port first second last served d log e,
    refl,
    log_reads_back R L one_line (log_path config base_dir)
        (run_events config port first second last served)
        (setup_logger (log_path config base_dir) log) refl (join_path-ne-nil base_dir _) empty,
  )
