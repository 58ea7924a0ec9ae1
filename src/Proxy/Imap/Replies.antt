-- ===== src/Proxy/Imap/Replies.antt =====
-- The replies of the IMAP proxy of src/legacy_proxy.py.
use mx2_sandbox.Base.{
  ◌≡◌, ◌∙◌, ap, refl, sym, Str, str, Bool, true, false, not, List, [], ◌∷◌, ◌++◌, arith, ◌==◌,
  nat_eq, list_eq, if◌then◌else◌, Bool-cases, inl, inr,
}
use mx2_sandbox.Base.Text.{strip, upper, split_once, first_of_split}
use mathlib.Core.List.{append_assoc, append-nil}
use mx2_sandbox.Proxy.Imap.{
  ImapSession, crlf, second_word, completed, handle_imap_command, handle_imap_line,
  handle_imap_client,
}

abbrev pub command_of : Str → Str
command_of line = upper (second_word (split_once b' ' line))

-- the completion of a line, without white space at its ends
abbrev pub completion_of : Str → Str
completion_of line = completed (first_of_split (split_once b' ' line)) (command_of line)

-- the untagged reply before the completion
abbrev pub untagged : Str → List Str
untagged cmd =
    if cmd == str "CAPABILITY"
    then (str "* CAPABILITY IMAP4rev1 LITERAL+" ++ crlf) ∷ []
    else if cmd == str "LOGOUT"
    then (str "* BYE Logging out" ++ crlf) ∷ []
    else []

-- what a run of lines is answered with: each line that is not blank, up to a LOGOUT
abbrev pub answers : List Str → List Str
answers [] = []
answers (raw ∷ lines) =
    let line = strip raw in
    let rest = answers lines in
    if line == []
    then rest
    else untagged (command_of line)
      ++ completion_of line ∷ (if command_of line == str "LOGOUT" then [] else rest)

closed_line : (line : Str) (s : ImapSession) → s.is_open ≡ false → handle_imap_line line s ≡ s
unfolding handle_imap_line
closed_line line s h = ground (arith, h)

closed_client :
    (lines : List Str) (s : ImapSession) → s.is_open ≡ false → handle_imap_client lines s ≡ s
unfolding handle_imap_client
closed_client [] s h = refl
closed_client (line ∷ lines) s h =
    ap (handle_imap_client lines) (closed_line line s h) ∙ closed_client lines s h

-- what one line is answered with, and whether the session goes on
replies : Str → List Str
replies line = if line == [] then [] else untagged (command_of line) ++ completion_of line ∷ []

goes_on : Str → Bool
goes_on line = if line == [] then true else not (command_of line == str "LOGOUT")

line_lem :
    (raw : Str) (s : ImapSession)
    → s.is_open ≡ true
    → ((handle_imap_line raw s).written ≡ s.written ++ replies (strip raw))
      × ((handle_imap_line raw s).is_open ≡ goes_on (strip raw))
unfolding handle_imap_line handle_imap_command replies goes_on
line_lem raw s opened = (ground (arith, opened, append-nil s.written), ground (arith, opened))

answers_lem :
    (raw : Str) (lines : List Str)
    → answers (raw ∷ lines)
      ≡ replies (strip raw) ++ (if goes_on (strip raw) then answers lines else [])
unfolding replies goes_on
answers_lem raw lines = ground (
  arith,
  append_assoc (untagged (command_of (strip raw))) (completion_of (strip raw) ∷ []) (answers lines),
  append-nil (untagged (command_of (strip raw)) ++ completion_of (strip raw) ∷ []),
)

-- The proxy of an open session answers a sequence of lines with one tagged completion for each line
-- that is not blank, behind the untagged reply of a CAPABILITY or a LOGOUT, up to the first LOGOUT.
pub written-handle_imap_client :
    (lines : List Str) (s : ImapSession)
    → s.is_open ≡ true
    → (handle_imap_client lines s).written ≡ s.written ++ answers lines
unfolding handle_imap_client
written-handle_imap_client [] s opened = ground (arith, append-nil s.written)
written-handle_imap_client (raw ∷ lines) s opened =
    let (said, on) = line_lem raw s opened in
    let next = handle_imap_line raw s in
    elim (Bool-cases (goes_on (strip raw))) [
      | inl going ↦
          written-handle_imap_client lines next (on ∙ going)
          ∙ ap (λ (ws : List Str). ws ++ answers lines) said
          ∙ append_assoc s.written (replies (strip raw)) (answers lines)
          ∙ ap (λ (ws : List Str). s.written ++ ws) (sym (answers_lem raw lines ∙ rw going refl))
      | inr stopped ↦
          ap (λ (x : ImapSession). x.written) (closed_client lines next (on ∙ stopped))
          ∙ said
          ∙ ap (λ (ws : List Str). s.written ++ ws)
              (sym (answers_lem raw lines ∙ rw stopped (append-nil (replies (strip raw)))))
    ]
