-- ===== src/Proxy/Smtp.antt =====
-- MX2LegacySMTPProxy of src/legacy_proxy.py.
pub mod Transfer
pub mod Delivery
pub mod Clients
use mx2_sandbox.Base.{
  ℕ, Str, str, Bool, true, false, ◌||◌, Option, none, some, List, [], ◌∷◌, ◌++◌, ◌==◌, nat_eq,
  list_eq, if◌then◌else◌,
}
use mx2_sandbox.Base.Text.{strip, upper, starts_with, join}
use mx2_sandbox.Json.{Json, null, text, obj, Fields, dict, get_or}
use mx2_sandbox.Runtime.{Runtime}
use mx2_sandbox.Cas.{Store}
use mx2_sandbox.Gateway.Translate.{Fresh, translate_smtp_to_mx2}

-- The locals of `handle_client`, what it wrote and posted, and the content store; `is_open` is false
-- once the loop was left.
pub record Session : Type 0 where
  pub in_data_mode : Bool
  pub data_buffer : List Str
  pub written : List Str
  pub posted : List Json
  pub cas : Store
  pub is_open : Bool

abbrev pub write_reply : Str → Session → Session
write_reply reply s = record s { written = s.written ++ reply ∷ [] }

-- `\r\n`
abbrev pub crlf : Str
crlf = 13 ∷ 10 ∷ []

abbrev pub greeting : Str
greeting = str "220 127.0.0.1 MX2 Legacy SMTP Proxy Server Ready" ++ crlf

-- a client that has just connected
abbrev pub connected : Store → Session
connected store = record {
  in_data_mode = false;
  data_buffer = [];
  written = greeting ∷ [];
  posted = [];
  cas = store;
  is_open = true;
}

abbrev pub hello_reply : Str
hello_reply =
    str "250-127.0.0.1 Hello" ++ (crlf ++ (str "250-8BITMIME" ++ (crlf ++ (str "250 OK" ++ crlf))))

abbrev pub data_reply : Str
data_reply = str "354 Start mail input; end with <CRLF>.<CRLF>" ++ crlf

abbrev pub accepted_reply : Str
accepted_reply = str "250 2.0.0 OK Message accepted for MX2 E2EE translation" ++ crlf

abbrev pub bye_reply : Str
bye_reply = str "221 2.0.0 Bye" ++ crlf

-- a command
unfoldable pub handle_command : Str → Session → Session
handle_command line s =
    let cmd_upper = strip (upper line) in
    if starts_with cmd_upper (str "HELO") || starts_with cmd_upper (str "EHLO")
    then write_reply hello_reply s
    else if starts_with cmd_upper (str "MAIL FROM:")
    then write_reply (str "250 2.1.0 Sender OK" ++ crlf) s
    else if starts_with cmd_upper (str "RCPT TO:")
    then write_reply (str "250 2.1.5 Recipient OK" ++ crlf) s
    else if cmd_upper == str "DATA"
    then write_reply data_reply (record s { in_data_mode = true })
    else if cmd_upper == str "QUIT"
    then record (write_reply bye_reply s) { is_open = false }
    else write_reply (str "250 OK" ++ crlf) s

abbrev pub api_payload : Str → Fields → Json
api_payload raw_mime translated = dict (
    (str "smtp", text raw_mime)
    ∷ (str "publicKey", get_or translated (str "recipient") (text []))
    ∷ [])

module _ (R : Runtime) where
  -- `json.loads` of the translation, which must be a dict
  abbrev pub load_dict : Option Str → Option Fields
  load_dict none = none
  load_dict (some s) = elim (R.loads s) [
    | none ↦ none
    | some v ↦ elim v [ obj fs ↦ some fs | _ ↦ none ]
  ]

  -- the end of the data; an exception ends the session
  unfoldable pub end_data : Fresh → Session → Session
  unfolding join
  end_data fresh s =
      let raw_mime = join [] s.data_buffer in
      let (result, store) = translate_smtp_to_mx2 R fresh raw_mime [] null null s.cas in
      elim (load_dict result) [
        | none ↦ record s { in_data_mode = false; cas = store; is_open = false }
        | some translated ↦ record s {
          in_data_mode = false;
          data_buffer = [];
          written = s.written ++ accepted_reply ∷ [];
          posted = s.posted ++ api_payload raw_mime translated ∷ [];
          cas = store;
        }
      ]

  -- a line of the data
  unfoldable pub handle_data : Fresh → Str → Session → Session
  handle_data fresh line s =
      if strip line == str "."
      then end_data fresh s
      else record s { data_buffer = s.data_buffer ++ line ∷ [] }

  -- one round of the loop
  unfoldable pub handle_line : Fresh → Str → Session → Session
  handle_line fresh line s =
      if s.is_open
      then (if s.in_data_mode then handle_data fresh line s else handle_command line s)
      else s

  -- the loop, up to the end of the stream
  unfoldable pub handle_client : List (Fresh × Str) → Session → Session
  unfolding handle_line
  handle_client [] s = s
  handle_client ((fresh, line) ∷ lines) s = handle_client lines (handle_line fresh line s)
