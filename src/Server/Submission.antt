-- ===== src/Server/Submission.antt =====
-- What `_handle_translate` of src/web_server.py takes from the payload and from the headers.
use mx2_sandbox.Base.{
  Str, str, Bool, true, Option, some, List, [], ◌∷◌, nat_eq, list_eq, if◌then◌else◌,
}
use mx2_sandbox.Base.Text.{lower, strip, starts_with, split_once, splitlines}
use mx2_sandbox.Json.{Json, null, bool, text, Fields, get_or, truthy}
use mx2_sandbox.Storage.{address_domain}
use mx2_sandbox.AntiSpam.Grade.{Sender}
use mx2_sandbox.Server.{need_text, text_or_empty, key_text, ◌>>=◌}

-- `line.split(":", 1)[1].strip()`
abbrev pub second : List Str → Str
second (a ∷ b ∷ rest) = b
second _ = []

unfoldable pub header_value : Str → Str
header_value line = strip (second (split_once b':' line))

-- the loop that looks for the sender and the recipient
unfoldable pub find_addresses : List Str → Str × Str → Str × Str
find_addresses [] found = found
find_addresses (line ∷ lines) (sender, recipient) = find_addresses lines (
    if starts_with (lower line) (str "from:")
    then (header_value line, recipient)
    else if starts_with (lower line) (str "to:")
    then (sender, header_value line)
    else (sender, recipient))

unfoldable pub find_subject : List Str → Str → Str
find_subject [] subject = subject
find_subject (line ∷ lines) subject =
    find_subject lines
      (if starts_with (lower line) (str "subject:") then header_value line else subject)

-- what the handler takes from the payload, before it uses it
pub record Submission : Type 0 where
  pub raw_smtp : Str
  -- `none` for a key that is neither false nor a text
  pub pubkey : Option Str
  pub features : Json
  pub vouch_token : Json
  pub voucher_pubkey : Str
  pub signature_valid : Bool

unfoldable pub read_submission : Fields → Option Submission
read_submission payload = do
  smtp ← need_text (get_or payload (str "smtp") (text []))
  some (record {
    raw_smtp = strip smtp;
    pubkey = text_or_empty (get_or payload (str "publicKey") (text []));
    features = get_or payload (str "features") null;
    vouch_token = get_or payload (str "vouchingToken") null;
    voucher_pubkey = key_text (get_or payload (str "voucherPublicKey") (text []));
    signature_valid = truthy (get_or payload (str "signatureValid") (bool true));
  })

-- the values that the handler computes from the headers
pub record Route : Type 0 where
  pub sender_addr : Str
  pub recipient_addr : Str
  pub sender_domain : Str
  pub recipient_domain : Str

unfoldable pub route_of : Str → Route
unfolding find_addresses address_domain
route_of raw_smtp =
    let (sender, recipient) =
      find_addresses (splitlines raw_smtp) (str "alice@example.com", str "bob@example.com") in
    record {
      sender_addr = sender;
      recipient_addr = recipient;
      sender_domain = address_domain sender;
      recipient_domain = address_domain recipient;
    }

abbrev pub sender_of : Submission → Sender
sender_of s =
    let route = route_of s.raw_smtp in
    record {
      sender = route.sender_addr;
      sender_domain = route.sender_domain;
      recipient = route.recipient_addr;
      vouch_token = s.vouch_token;
      voucher_pubkey = s.voucher_pubkey;
      signature_valid = s.signature_valid;
    }
