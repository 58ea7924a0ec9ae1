-- ===== src/Proxy/Smtp/Transfer.antt =====
-- A mail transfer through the SMTP proxy of src/legacy_proxy.py.
use mx2_sandbox.Base.{
  ◌≡◌, ◌≢◌, refl, ◌∙◌, ap, Str, str, true, false, some, List, [], ◌∷◌, ◌++◌, All, map, arith,
  nat_eq, list_eq,
}
use mx2_sandbox.Base.Text.{strip, upper, starts_with, join}
use mx2_sandbox.Json.{null, Fields}
use mx2_sandbox.Runtime.{Runtime}
use mx2_sandbox.Gateway.Translate.{Fresh, translate_smtp_to_mx2}
use mx2_sandbox.Proxy.Smtp.{
  Session, data_reply, accepted_reply, api_payload, load_dict, end_data, handle_data,
  handle_command, handle_line, handle_client,
}
use mathlib.Core.List.{append_assoc, append-nil}

-- the lines of a body, each with what its round draws
abbrev pub IsBody : List (Fresh × Str) → Type 0
IsBody lines = All (λ (l : Fresh × Str). strip l.1 ≢ str ".") lines

abbrev pub texts : List (Fresh × Str) → List Str
texts lines = map (λ (l : Fresh × Str). l.1) lines

module _ (R : Runtime) where
  handle_client-append :
      (xs ys : List (Fresh × Str)) (s : Session)
      → handle_client R (xs ++ ys) s ≡ handle_client R ys (handle_client R xs s)
  unfolding handle_client
  handle_client-append [] ys s = refl
  handle_client-append ((fresh, line) ∷ xs) ys s =
      handle_client-append xs ys (handle_line R fresh line s)

  body_step :
      (fresh : Fresh) (line : Str) (lines : List (Fresh × Str)) (s : Session)
      → strip line ≢ str "."
      → s.is_open ≡ true
      → s.in_data_mode ≡ true
      → handle_client R lines (record s { data_buffer = s.data_buffer ++ line ∷ [] })
        ≡ record s { data_buffer = (s.data_buffer ++ line ∷ []) ++ texts lines }
      → handle_client R ((fresh, line) ∷ lines) s
        ≡ record s { data_buffer = s.data_buffer ++ texts ((fresh, line) ∷ lines) }
  body_step fresh line lines s k opened reading ih =
      unfold handle_client handle_line handle_data in
      ground (arith, k, opened, reading, ih, append_assoc s.data_buffer (line ∷ []) (texts lines))

  -- Body lines are collected and nothing else happens.
  handle_client_body :
      (lines : List (Fresh × Str)) (s : Session)
      → IsBody lines
      → s.is_open ≡ true
      → s.in_data_mode ≡ true
      → handle_client R lines s ≡ record s { data_buffer = s.data_buffer ++ texts lines }
  unfolding handle_client
  handle_client_body [] s h opened reading = ground (arith, append-nil s.data_buffer)
  handle_client_body ((fresh, line) ∷ lines) s (k, h) opened reading =
      body_step fresh line lines s k opened reading (
        handle_client_body lines (record s { data_buffer = s.data_buffer ++ line ∷ [] }) h opened
          reading)

  -- the line that ends the data
  end_step :
      (fresh : Fresh) (line : Str) (s : Session) (translated : Fields)
      → strip line ≡ str "."
      → s.is_open ≡ true
      → s.in_data_mode ≡ true
      → load_dict R (translate_smtp_to_mx2 R fresh (join [] s.data_buffer) [] null null s.cas).0
        ≡ some translated
      → handle_client R ((fresh, line) ∷ []) s ≡ record s {
        in_data_mode = false;
        data_buffer = [];
        written = s.written ++ accepted_reply ∷ [];
        posted = s.posted ++ api_payload (join [] s.data_buffer) translated ∷ [];
        cas = (translate_smtp_to_mx2 R fresh (join [] s.data_buffer) [] null null s.cas).1;
      }
  unfolding handle_client handle_line handle_data end_data
  end_step fresh line s translated dot opened reading made =
      ground (arith, dot, opened, reading, made)

  data_step :
      (fresh : Fresh) (line : Str) (s : Session)
      → strip (upper line) ≡ str "DATA"
      → s.is_open ≡ true
      → s.in_data_mode ≡ false
      → handle_line R fresh line s
        ≡ record s { in_data_mode = true; written = s.written ++ data_reply ∷ [] }
  unfolding handle_line handle_command starts_with nat_eq list_eq
  data_step fresh line s named opened commands =
      rw (handle_line, opened, commands, handle_command, named) refl

  -- In an open session that reads commands, with nothing collected: after DATA, the lines of a body
  -- of which none is a lone dot, and a line that is one, where the body is translated to a dict, the
  -- proxy has given the two replies of a transfer, has posted exactly the lines of the body, joined
  -- as they are, and reads commands again with nothing collected.
  pub mail_transfer :
      (f g : Fresh) (start dot : Str) (lines : List (Fresh × Str)) (s : Session)
      (translated : Fields)
      → s.is_open ≡ true
      → s.in_data_mode ≡ false
      → s.data_buffer ≡ []
      → strip (upper start) ≡ str "DATA"
      → IsBody lines
      → strip dot ≡ str "."
      → load_dict R (translate_smtp_to_mx2 R g (join [] (texts lines)) [] null null s.cas).0
        ≡ some translated
      → handle_client R ((f, start) ∷ (lines ++ (g, dot) ∷ [])) s ≡ record s {
        in_data_mode = false;
        data_buffer = [];
        written = (s.written ++ data_reply ∷ []) ++ accepted_reply ∷ [];
        posted = s.posted ++ api_payload (join [] (texts lines)) translated ∷ [];
        cas = (translate_smtp_to_mx2 R g (join [] (texts lines)) [] null null s.cas).1;
      }
  unfolding handle_client
  mail_transfer f g start dot lines s translated opened commands empty named body dotted made =
      let reading : Session = record s {
        in_data_mode = true;
        written = s.written ++ data_reply ∷ [];
      } in
      let collected : Session = record reading { data_buffer = texts lines } in
      ap (handle_client R (lines ++ (g, dot) ∷ [])) (data_step f start s named opened commands)
      ∙ handle_client-append lines ((g, dot) ∷ []) reading
      ∙ ap (handle_client R ((g, dot) ∷ [])) (
          handle_client_body lines reading body opened refl
          ∙ ap (λ (buffer : List Str). record reading { data_buffer = buffer ++ texts lines })
              empty)
      ∙ end_step g dot collected translated dotted opened refl made
