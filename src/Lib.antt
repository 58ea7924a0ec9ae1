-- ===== src/Lib.antt =====
-- The MX2 sandbox: a daemon that takes legacy e-mail, grades its sender, encrypts it into a sealed
-- envelope, and holds what it distrusts in a quarantine queue.
--
-- The parts and the files that model them:
--   * Base: text, lists, dicts, hexadecimal and decimal numbers, with the lemmas that the parts
--     share. A text or a `bytes` value is a list of character codes or bytes (`Str`, `Bytes`).
--   * Json and Mail: the values of `json.loads` and of `email.message_from_string`.
--   * Runtime: the packages and codecs that the program calls (cryptography, hashlib, base64, json,
--     email), as a record of functions; `IsLawful` states their documented behaviour.
--   * Sql and Storage (src/storage.py): the tables as lists of rows, each method of
--     MX2StorageEngine as a function from the database to a result and the new database.
--   * Cas (src/cas.py): the storage directory as a dict from file names to contents.
--   * Metrics (src/metrics.py): the counters and the exported text.
--   * Gateway (src/gateway.py): Keys (parse_x25519_private_key and the three other parsers), Hpke
--     (encrypt_payload, decrypt_payload), Header and Body (the DIDs, the parts and the attachments
--     of a message), Translate (translate_smtp_to_mx2), Receipt (generate_delivery_receipt),
--     Negotiate (negotiate_capabilities).
--   * AntiSpam (src/anti_spam.py): the attributes of MX2AntiSpamEngine as a record; Quota
--     (record_message, get_hourly_count), Pow (verify_proof_of_work), Vouch (verify_vouch_token),
--     Grade (evaluate_trust_grade), Queue (the quarantine, in memory and in the database).
--   * Server (src/web_server.py): the class attributes of MX2SandboxHTTPHandler as a record
--     `Daemon`; Submission and Translate (_handle_translate), Handlers (the other endpoints),
--     Routes (do_GET, do_HEAD, do_POST, and sequences of requests), Start (run_server, log_message).
--   * Resolver: Did (src/did_resolver.py, the cache and the methods of a DID) and Dns
--     (src/dns_resolver.py, the keys and the gateways of domains).
--   * Proxy: Smtp and Imap (src/legacy_proxy.py), a session as a state that each line changes, and
--     Smtp.Delivery (_post_to_gateway, over the daemon of Server); Smtp.Clients is a run of several
--     clients, in any order of the rounds of their loops.
--   * Tls (src/tls_manager.py): the ACME challenges and the files of the certificate; Tls.Context
--     (create_ssl_context).
--   * Ctl (mx2ctl.py): Request (_request_api, over the daemon of Server), Terminal (what is written),
--     Pow (cmd_pow), Stats (cmd_stats), Queue (cmd_queue), Mail (cmd_test, cmd_status), Proxy
--     (cmd_proxy), Main (cmd_resolve and the choice of a command).
--   * Logger (src/logger.py): setup_logger and log_event, with the file that they write.
--   * Sandbox (run_sandbox.py): Envelope (sections 1 to 4 of run_demo), Scenarios (section 5) and Demo
--     (sections 6 and 7, and run_demo).
--   * Tests: a runtime that can be run, and the theorems at small inputs.
--
-- Conventions. A method that changes its object returns the new one. An exception is `none` where
-- one kind is caught the same way as another. A request reads the clock once, in microseconds
-- (`Call.now`), and a time in a reply is that number, where the program shows seconds with a
-- fraction; draws of uuid and of ephemeral keys are given with the call (`Fresh`). A handler
-- runs to its end before the next one starts, as in the HTTPServer that the daemon uses. Loops are
-- recursions on the list they read. Fuel is used twice: for the printing of a decimal number, where
-- the number plus one is enough, since each digit makes it smaller, and for the search of cmd_pow,
-- which has no bound of its own and takes one step for each number up to the nonce that it finds;
-- run_demo searches in the same way.
--
-- Not modelled: the case of letters outside of ASCII; negative and fractional numbers in JSON;
-- signs and underscores in `int`; negative values, inf and nan of `float` for the end of a token;
-- lone surrogates, which `encode` refuses; the order of a Python set in the negotiated features,
-- taken as the client's order; keys of a vouching token that are lists or dicts; request targets
-- that do not start with one slash; the headers of responses; names of stored contents that lead
-- out of the storage directory or to the directory itself; the limit of 64 KiB on a line that
-- asyncio reads, which ends a session of a proxy; failures of the disk, the database and the
-- connections; which events the handlers of the daemon, the proxies and the resolvers log (a run
-- of the daemon is given the events of its handlers); the options of mx2ctl.py as the command line
-- is parsed; and the constant page of src/web_ui.py.
pub mod Base
pub mod Json
pub mod Mail
pub mod Runtime
pub mod Sql
pub mod Storage
pub mod Gateway
pub mod AntiSpam
pub mod Cas
pub mod Metrics
pub mod Server
pub mod Resolver
pub mod Proxy
pub mod Tls
pub mod Ctl
pub mod Logger
pub mod Sandbox
pub mod Tests
