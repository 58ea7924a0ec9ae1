-- ===== src/Server/Start.antt =====
-- `run_server` and `log_message` of src/web_server.py. The parsed configuration is a function from a
-- section and an option to a text.
pub mod Records
use mx2_sandbox.Base.{ℕ, Str, str, Bool, Option, none, some, List, [], ◌∷◌, ◌++◌, if◌then◌else◌}
use mx2_sandbox.Base.Decimal.{decimal, int_of}
use mx2_sandbox.Base.Text.{starts_with}
use mx2_sandbox.Runtime.{Runtime}
use mx2_sandbox.Cas.{Store}
use mx2_sandbox.Storage.{Database}
use mx2_sandbox.AntiSpam.{new_engine}
use mx2_sandbox.Metrics.{new_metrics}
use mx2_sandbox.Logger.{Log, Event, setup_logger, log_event, log_all}
use mx2_sandbox.Server.{Daemon, Call, or_else, ◌>>=◌}
use mx2_sandbox.Server.Routes.{Request, serve}

abbrev pub Config : Type 0
Config = Str → Str → Option Str

pub record Settings : Type 0 where
  pub port : ℕ
  pub host : Str
  pub log_file : Str

-- `config.getint(…, fallback=8000)`, with `none` for a `ValueError`
unfoldable pub port_of : Option Str → Option ℕ
port_of none = some 8000
port_of (some s) = int_of s

unfoldable pub read_settings : Config → Option Settings
unfolding port_of
read_settings config = do
  port ← port_of (config (str "daemon") (str "port"))
  some (record {
    port = port;
    host = or_else (config (str "daemon") (str "host")) (str "127.0.0.1");
    log_file = or_else (config (str "daemon") (str "log_file")) (str "logs/mx2.log");
  })

-- `os.path.join(base_dir, path)` of a directory that does not end in a slash
unfoldable pub join_path : Str → Str → Str
unfolding starts_with
join_path base_dir path = if starts_with path (str "/") then path else base_dir ++ (str "/" ++ path)

-- the class attributes when the module is loaded
abbrev pub new_daemon : Database → Store → Daemon
new_daemon db store = record {
  anti_spam = new_engine 100 (some db);
  cas = store;
  metrics = new_metrics;
}

abbrev pub info : Str → Str → Str × Bool → Event
info component message (timestamp, writable) = record {
  level = str "INFO";
  component = component;
  message = message;
  details = none;
  timestamp = timestamp;
  writable = writable;
}

abbrev pub Served : Type 0
Served = (Call × Request) × (List Event × (Str × (Str × Bool)))

module _ (R : Runtime) where
  -- Requests that are served and logged: the events that a handler logs are given, and behind them
  -- comes the line that `send_response` formats, with what the log reads.
  unfoldable pub serve_forever : List Served → Daemon × Log → Daemon × Log
  serve_forever [] state = state
  serve_forever (((call, q), (own, (line, at))) ∷ requests) (d, log) =
      serve_forever requests
        ((serve R call q d).1, log_event R (info (str "Daemon-HTTP") line at) (log_all R own log))

  -- `run_server` up to the interrupt, where the address is free, with the readings of the log at the
  -- three events; `none` for a port that is no number
  unfoldable pub run_server :
      Config
      → Str
      → Str × Bool
      → Str × Bool
      → Str × Bool
      → List Served
      → Daemon × Log
      → Option (Daemon × Log)
  unfolding read_settings join_path serve_forever
  run_server config base_dir first second last requests (d, log) = elim (read_settings config) [
    | none ↦ none
    | some settings ↦
        let opening =
          log_event R
            (info (str "Daemon-Init") (str "Initializing MX2 Gateway Server (Headless Mode)...")
              first)
            (setup_logger (join_path base_dir settings.log_file) log) in
        let listening =
          log_event R
            (info (str "Daemon-Init")
              (str "API Server listening on http://"
                ++ (settings.host ++ (str ":" ++ decimal settings.port)))
              second)
            opening in
        let (served, written) = serve_forever requests (d, listening) in
        some (
          served,
          log_event R (info (str "Daemon-Shutdown") (str "Shutting down server...") last) written,
        )
  ]
