-- ===== src/Ctl/Pow/Answer.antt =====
-- `cmd_pow` of mx2ctl.py together with `_handle_pow_verify` of src/web_server.py.
use mx2_sandbox.Base.{
  ℕ, ◌<◌, ◌≤◌, ◌≡◌, ◌≢◌, refl, Str, str, Bool, true, some, List, [], ◌∷◌, ◌++◌, not, ◌||◌,
  Option-cases, inl, inr, arith, list_eq, nat_eq,
}
use mx2_sandbox.Base.Decimal.{decimal, decimal-ne-nil}
use mx2_sandbox.Json.{Json, obj, text, bool, num, Fields, fields, truthy, get_or, get_field}
use mx2_sandbox.Runtime.{Runtime, IsLawful}
use mx2_sandbox.AntiSpam.Pow.{verify_proof_of_work}
use mx2_sandbox.Server.{Daemon, Call, send_json, ◌>>=◌}
use mx2_sandbox.Server.Handlers.Trust.{handle_pow_verify, pow_reply, int_value, str_value}
use mx2_sandbox.Server.Routes.{call_endpoint, serve, counted}
use mx2_sandbox.Ctl.Terminal.{rule}
use mx2_sandbox.Ctl.Request.{answered, request_api}
use mx2_sandbox.Ctl.Request.Laws.{read_payload-sent, read_response-json}
use mx2_sandbox.Ctl.Pow.{
  PowArgs, challenge_text, has_nonce, verdict, pow_payload, pow_report, after_pow, submit_nonce,
  solving, found_line, solve_and_submit, cmd_pow,
}
use mx2_sandbox.Ctl.Pow.Search.{solve_from_terminates}
use mx2_sandbox.Server.Routes.Paths.{pow_route}

module _ (R : Runtime) (L : IsLawful R) (call : Call) where
  abbrev pow_answer_fields : Str → Str → ℕ → Fields
  pow_answer_fields challenge nonce bits = fields (
      (str "success", bool true)
      ∷ (str "valid", bool (verify_proof_of_work R challenge nonce bits))
      ∷ (str "challenge", text challenge)
      ∷ (str "nonce", text nonce)
      ∷ (str "difficultyBits", num bits)
      ∷ [])

  abbrev pow_answer : Str → Str → ℕ → Json
  pow_answer challenge nonce bits = obj (pow_answer_fields challenge nonce bits)

  pow_reply-text :
      (challenge nonce : Str) (bits : ℕ)
      → challenge ≢ []
      → nonce ≢ []
      → pow_reply R call (text challenge) nonce bits
        ≡ send_json (pow_answer challenge nonce bits) 200
  unfolding pow_reply send_json truthy list_eq
  pow_reply-text [] nonce bits h k = absurd (h refl)
  pow_reply-text (c ∷ challenge) [] bits h k = absurd (k refl)
  pow_reply-text (c ∷ challenge) (x ∷ nonce) bits h k = refl

  read_pow :
      (challenge nonce : Str) (bits : ℕ)
      → (int_value (get_or (pow_payload challenge nonce bits) (str "difficultyBits") (num 10))
          >>= λ b. some (
              pow_reply R call
                (get_or (pow_payload challenge nonce bits) (str "challenge") (text []))
                (str_value R call
                  (get_or (pow_payload challenge nonce bits) (str "nonce") (text [])))
                b))
        ≡ some (pow_reply R call (text challenge) nonce bits)
  unfolding get_or get_field list_eq nat_eq int_value
  read_pow challenge nonce bits = refl

  handle_pow_verify-sent :
      (challenge nonce : Str) (bits : ℕ)
      → challenge ≢ []
      → nonce ≢ []
      → handle_pow_verify R call
          (R.decode (R.encode (R.dumps (obj (pow_payload challenge nonce bits)))))
        ≡ send_json (pow_answer challenge nonce bits) 200
  unfolding handle_pow_verify
  handle_pow_verify-sent challenge nonce bits h k =
      rw
        (
          handle_pow_verify,
          read_payload-sent R L (pow_payload challenge nonce bits),
          read_pow challenge nonce bits,
        )
        (pow_reply-text challenge nonce bits h k)

  request-answer :
      (mx2_url : Str) (challenge nonce : Str) (bits : ℕ) (d : Daemon)
      → challenge ≢ []
      → nonce ≢ []
      → request_api R call mx2_url true (str "/api/pow/verify") (pow_payload challenge nonce bits) d
        ≡ (answered (pow_answer challenge nonce bits), counted d)
  unfolding request_api serve call_endpoint
  request-answer mx2_url challenge nonce bits d h k =
      rw
        (
          pow_route,
          handle_pow_verify-sent challenge nonce bits h k,
          read_response-json R L call (pow_answer challenge nonce bits) 200 (omega arith),
        )
        refl

  -- the report on a nonce
  abbrev pub nonce_report : Str → Str → ℕ → List Str
  nonce_report challenge nonce bits =
      rule 50
      ∷ (str "PoW Status   : " ++ verdict (verify_proof_of_work R challenge nonce bits))
      ∷ (str "Difficulty   : " ++ (R.repr (num bits) ++ str " bits"))
      ∷ (str "Challenge    : " ++ challenge)
      ∷ (str "Nonce        : " ++ nonce)
      ∷ rule 50
      ∷ []

  pow_report_lem :
      (challenge nonce : Str) (bits : ℕ)
      → pow_report R call (pow_answer_fields challenge nonce bits)
        ≡ nonce_report challenge nonce bits
  unfolding pow_report get_or get_field list_eq nat_eq truthy
  pow_report_lem challenge nonce bits = refl

  submit_nonce_lem :
      (mx2_url : Str) (printed : List Str) (challenge nonce : Str) (bits : ℕ) (d : Daemon)
      → challenge ≢ []
      → nonce ≢ []
      → submit_nonce R call mx2_url true printed challenge nonce bits d ≡ record {
        printed = printed ++ nonce_report challenge nonce bits;
        exit_code = 0;
        daemon = counted d;
      }
  unfolding submit_nonce after_pow
  submit_nonce_lem mx2_url printed challenge nonce bits d h k =
      rw (request-answer mx2_url challenge nonce bits d h k, pow_report_lem challenge nonce bits)
        refl

  challenge_text-ne-nil : (args : PowArgs) → challenge_text call args ≢ []
  unfolding challenge_text
  challenge_text-ne-nil args = elim (Option-cases args.challenge) [
    | inl e ↦ rw e (ground arith)
    | inr ([], e) ↦ rw e (ground arith)
    | inr (c ∷ s, e) ↦ rw e (ground arith)
  ]

  -- whether the command searches
  abbrev pub searches : PowArgs → Bool
  searches args = args.solve || not (has_nonce args.nonce)

  cmd_pow-searches :
      (mx2_url : Str) (fuel : ℕ) (elapsed : Str) (args : PowArgs) (d : Daemon)
      → searches args ≡ true
      → cmd_pow R call mx2_url true fuel elapsed args d
        ≡ solve_and_submit R call mx2_url true fuel elapsed (challenge_text call args) args.bits d
  unfolding cmd_pow
  cmd_pow-searches mx2_url fuel elapsed args d h = ground arith

  -- `mx2ctl pow`, told to solve or given no nonce, over a lawful runtime and a daemon that can be
  -- reached: if some number is an accepted nonce of the challenge and the fuel exceeds it, the
  -- command ends with exit code 0. It has found a nonce that is at most that number, the daemon has
  -- verified the same challenge, nonce and difficulty, and the report says VALID; the daemon has
  -- counted one request.
  pub cmd_pow_solves :
      (mx2_url : Str) (fuel k : ℕ) (elapsed : Str) (args : PowArgs) (d : Daemon)
      → searches args ≡ true
      → k < fuel
      → verify_proof_of_work R (challenge_text call args) (decimal k) args.bits ≡ true
      → (m : ℕ) × (m ≤ k)
        × (cmd_pow R call mx2_url true fuel elapsed args d
            ≡ some (record {
              printed =
                  solving (challenge_text call args) args.bits
                  ++ found_line elapsed m
                    ∷ rule 50
                    ∷ (str "PoW Status   : " ++ verdict true)
                    ∷ (str "Difficulty   : " ++ (R.repr (num args.bits) ++ str " bits"))
                    ∷ (str "Challenge    : " ++ challenge_text call args)
                    ∷ (str "Nonce        : " ++ decimal m)
                    ∷ rule 50
                    ∷ [];
              exit_code = 0;
              daemon = counted d;
            }))
  unfolding solve_and_submit solving
  cmd_pow_solves mx2_url fuel k elapsed args d h enough accepted =
      let (m, found, bound, valid, least) =
        solve_from_terminates R (challenge_text call args) args.bits k fuel enough accepted in
      (
        m,
        bound,
        rw
            (
              cmd_pow-searches mx2_url fuel elapsed args d h,
              solve_and_submit,
              found,
              submit_nonce_lem mx2_url _ (challenge_text call args) (decimal m) args.bits d
                  (challenge_text-ne-nil args) (decimal-ne-nil m),
              valid,
            )
            refl,
      )
