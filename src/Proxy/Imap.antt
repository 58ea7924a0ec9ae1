-- ===== src/Proxy/Imap.antt =====
-- MX2LegacyIMAPProxy of src/legacy_proxy.py.
pub mod Replies
use mx2_sandbox.Base.{
  ℕ, Str, str, Bool, true, false, List, [], ◌∷◌, ◌++◌, ◌==◌, nat_eq, list_eq, if◌then◌else◌,
}
use mx2_sandbox.Base.Text.{strip, upper, split_once, first_of_split}

-- what the client was sent, and whether the loop goes on
pub record ImapSession : Type 0 where
  pub written : List Str
  pub is_open : Bool

abbrev pub crlf : Str
crlf = 13 ∷ 10 ∷ []

-- `parts[1]` of `line.split(" ", 2)`, and the empty text if there is none
abbrev pub second_word : List Str → Str
second_word (tag ∷ rest ∷ more) = first_of_split (split_once b' ' rest)
second_word _ = []

abbrev pub completed : Str → Str → Str
completed tag cmd = tag ++ (str " OK " ++ (cmd ++ (str " completed" ++ crlf)))

-- a line that is not blank
unfoldable pub handle_imap_command : Str → ImapSession → ImapSession
unfolding split_once upper
handle_imap_command line s =
    let tag = first_of_split (split_once b' ' line) in
    let cmd = upper (second_word (split_once b' ' line)) in
    if cmd == str "CAPABILITY"
    then record s {
      written =
          s.written ++ (str "* CAPABILITY IMAP4rev1 LITERAL+" ++ crlf) ∷ completed tag cmd ∷ [];
    }
    else if cmd == str "LOGOUT"
    then record s {
      written = s.written ++ (str "* BYE Logging out" ++ crlf) ∷ completed tag cmd ∷ [];
      is_open = false;
    }
    else record s { written = s.written ++ completed tag cmd ∷ [] }

-- one round of the loop
unfoldable pub handle_imap_line : Str → ImapSession → ImapSession
handle_imap_line raw s =
    let line = strip raw in
    if s.is_open then (if line == [] then s else handle_imap_command line s) else s

-- the loop, up to the end of the stream
unfoldable pub handle_imap_client : List Str → ImapSession → ImapSession
unfolding handle_imap_line
handle_imap_client [] s = s
handle_imap_client (line ∷ lines) s = handle_imap_client lines (handle_imap_line line s)
