-- ===== src/Proxy/Smtp/Clients/Isolation.antt =====
-- The clients of the SMTP proxy of src/legacy_proxy.py do not disturb each other.
use mx2_sandbox.Base.{
  ◌≡◌, ◌∙◌, ap, sym, refl, ℕ, Str, true, false, Option, none, some, List, [], ◌∷◌, ◌++◌, ◌==◌,
  Option-cases, arith, nat_eq, Bool-cases, inl, inr,
}
use mx2_sandbox.Base.Text.{join}
use mx2_sandbox.Json.{null, Fields}
use mx2_sandbox.Runtime.{Runtime}
use mx2_sandbox.Cas.{Store}
use mx2_sandbox.Gateway.Translate.{Fresh, translate_smtp_to_mx2}
use mx2_sandbox.Gateway.Translate.Stores.{translate_result}
use mx2_sandbox.Proxy.Smtp.{
  Session, api_payload, load_dict, accepted_reply, end_data, handle_data, handle_command,
  handle_line, handle_client,
}
use mx2_sandbox.Proxy.Smtp.Clients.{Clients, Round, on_disk, run_round, run_rounds, client_lines}

-- a session without the content store, which all of them share
abbrev pub own_part : Session → Session
own_part s = on_disk [] s

same : {j i : ℕ} → (j == i) ≡ true → j ≡ i
same e = ground (arith, e)

module _ (R : Runtime) where
  -- the end of the data, for a translation that was loaded as a dict or was not
  abbrev ended : Session → Option Fields → Session
  ended s none = record (own_part s) { in_data_mode = false; is_open = false }
  ended s (some translated) = record (own_part s) {
    in_data_mode = false;
    data_buffer = [];
    written = s.written ++ accepted_reply ∷ [];
    posted = s.posted ++ api_payload (join [] s.data_buffer) translated ∷ [];
  }

  end_data-ended :
      (fresh : Fresh) (s : Session)
      → own_part (end_data R fresh s)
        ≡ ended s (
            load_dict R
              (translate_smtp_to_mx2 R fresh (join [] s.data_buffer) [] null null s.cas).0)
  unfolding end_data
  end_data-ended fresh s =
      elim (Option-cases (
        load_dict R (translate_smtp_to_mx2 R fresh (join [] s.data_buffer) [] null null s.cas).0)) [
          | inl e ↦ rw (end_data, e) refl
          | inr (translated, e) ↦ rw (end_data, e) refl
        ]

  end_data-own_part :
      (fresh : Fresh) (c : Store) (s : Session)
      → own_part (end_data R fresh (on_disk c s)) ≡ own_part (end_data R fresh s)
  end_data-own_part fresh c s =
      let raw_mime = join [] s.data_buffer in
      end_data-ended fresh (on_disk c s)
      ∙ ap (λ (o : Option Str). ended s (load_dict R o))
          (translate_result R fresh raw_mime [] null null c
            ∙ sym (translate_result R fresh raw_mime [] null null s.cas))
      ∙ sym (end_data-ended fresh s)

  handle_command-own_part :
      (line : Str) (c : Store) (s : Session)
      → own_part (handle_command line (on_disk c s)) ≡ own_part (handle_command line s)
  unfolding handle_command
  handle_command-own_part line c s = ground arith

  handle_line-own_part :
      (fresh : Fresh) (line : Str) (c : Store) (s : Session)
      → own_part (handle_line R fresh line (on_disk c s)) ≡ own_part (handle_line R fresh line s)
  unfolding handle_line handle_data
  handle_line-own_part fresh line c s =
      ground (arith, end_data-own_part fresh c s, handle_command-own_part line c s)

  -- Two sessions that differ in the store alone stay so.
  handle_line-respects :
      (fresh : Fresh) (line : Str) (s t : Session)
      → own_part s ≡ own_part t
      → own_part (handle_line R fresh line s) ≡ own_part (handle_line R fresh line t)
  handle_line-respects fresh line s t e =
      sym (handle_line-own_part fresh line [] s)
      ∙ ap (λ (u : Session). own_part (handle_line R fresh line u)) e
      ∙ handle_line-own_part fresh line [] t

  handle_client-respects :
      (lines : List (Fresh × Str)) (s t : Session)
      → own_part s ≡ own_part t
      → own_part (handle_client R lines s) ≡ own_part (handle_client R lines t)
  unfolding handle_client
  handle_client-respects [] s t e = e
  handle_client-respects ((fresh, line) ∷ lines) s t e =
      handle_client-respects lines _ _ (handle_line-respects fresh line s t e)

  own_round :
      (i j : ℕ) (fresh : Fresh) (line : Str) (p : Clients)
      → (j == i) ≡ true
      → own_part ((run_round R (i, (fresh, line)) p).client j)
        ≡ own_part (handle_line R fresh line (p.client j))
  unfolding run_round
  own_round i j fresh line p e = rw e (
      handle_line-own_part fresh line p.shared (p.client i)
      ∙ ap (λ (k : ℕ). own_part (handle_line R fresh line (p.client k))) (sym (same e)))

  other_round :
      (i j : ℕ) (fresh : Fresh) (line : Str) (p : Clients)
      → (j == i) ≡ false
      → (run_round R (i, (fresh, line)) p).client j ≡ p.client j
  unfolding run_round
  other_round i j fresh line p e = rw e refl

  -- Whatever the order in which the rounds of the clients of one proxy come, each client is in the
  -- state that its own lines alone lead to: the same replies, the same payloads posted, the same
  -- lines collected. Only the content store, which they share, is left out of the comparison.
  pub clients_isolated :
      (rounds : List Round) (j : ℕ) (p : Clients)
      → own_part ((run_rounds R rounds p).client j)
        ≡ own_part (handle_client R (client_lines j rounds) (p.client j))
  unfolding run_rounds run_round client_lines handle_client
  clients_isolated [] j p = refl
  clients_isolated ((i, (fresh, line)) ∷ rounds) j p = elim (Bool-cases (j == i)) [
    | inl e ↦ rw e (
        clients_isolated rounds j (run_round R (i, (fresh, line)) p)
        ∙ handle_client-respects (client_lines j rounds) _ _ (own_round i j fresh line p e))
    | inr e ↦ rw e (
        clients_isolated rounds j (run_round R (i, (fresh, line)) p)
        ∙ handle_client-respects (client_lines j rounds) _ _
            (ap own_part (other_round i j fresh line p e)))
  ]
