-- ===== src/Ctl/Pow.antt =====
-- `cmd_pow` of mx2ctl.py. The search for a nonce is a loop with fuel, and `none` while it runs.
pub mod Search
pub mod Answer
use mx2_sandbox.Base.{
  ℕ, zero, suc, ◌+◌, ◌/◌, ◌^◌, Str, str, Bool, true, false, ◌||◌, Option, none, some, List, [], ◌∷◌,
  ◌++◌, if◌then◌else◌,
}
use mx2_sandbox.Base.Decimal.{decimal}
use mx2_sandbox.Json.{Json, null, bool, num, text, obj, Fields, fields, get_or, truthy}
use mx2_sandbox.Runtime.{Runtime}
use mx2_sandbox.AntiSpam.Pow.{verify_proof_of_work}
use mx2_sandbox.Server.{Daemon, Call}
use mx2_sandbox.Server.Handlers.Trust.{str_value}
use mx2_sandbox.Ctl.Terminal.{arg_or, Ran, cyan, green, esc, reset, rule}
use mx2_sandbox.Ctl.Request.{Reply, answered, stopped, request_api}

-- the options; `bits` is 10 where it is not given
pub record PowArgs : Type 0 where
  pub challenge : Option Str
  pub nonce : Option Str
  pub bits : ℕ
  pub solve : Bool

-- `while not verify(…): calc_nonce += 1`
unfoldable pub solve_from : Runtime → Str → ℕ → ℕ → ℕ → Option ℕ
solve_from R challenge bits zero calc_nonce = none
solve_from R challenge bits (suc fuel) calc_nonce =
    let next = solve_from R challenge bits fuel (calc_nonce + 1) in
    if verify_proof_of_work R challenge (decimal calc_nonce) bits then some calc_nonce else next

abbrev pub has_nonce : Option Str → Bool
has_nonce none = false
has_nonce (some s) = true

abbrev pub given : Option Str → Str
given none = []
given (some s) = s

unfoldable pub challenge_text : Call → PowArgs → Str
challenge_text call args =
    arg_or (str "bob@example.com:alice@example.com:" ++ decimal (call.now / 10 ^ 6)) args.challenge

-- `{color}{'VALID' if valid else 'INVALID'}\033[0m`
unfoldable pub verdict : Bool → Str
verdict valid =
    if valid
    then esc (str "92m") ++ (str "VALID" ++ reset)
    else esc (str "91m") ++ (str "INVALID" ++ reset)

abbrev pub pow_payload : Str → Str → ℕ → Fields
pow_payload challenge nonce bits = fields (
    (str "challenge", text challenge)
    ∷ (str "nonce", text nonce)
    ∷ (str "difficultyBits", num bits)
    ∷ [])

unfoldable pub solving : Str → ℕ → List Str
solving challenge bits =
    cyan (str "[*] Solving Proof-of-Work challenge (" ++ (decimal bits ++ str " bits)..."))
    ∷ (str "    - Payload: " ++ challenge)
    ∷ []

-- `elapsed` is the time that the search took, as text
unfoldable pub found_line : Str → ℕ → Str
found_line elapsed nonce =
    green (str "[+] Nonce found: " ++ (decimal nonce ++ (str " (took " ++ (elapsed ++ str "s)"))))

module _ (R : Runtime) (call : Call) where
  unfoldable pub pow_report : Fields → List Str
  unfolding verdict
  pow_report res =
      rule 50
      ∷ (str "PoW Status   : " ++ verdict (truthy (get_or res (str "valid") (bool false))))
      ∷ (str "Difficulty   : "
          ++ (str_value R call (get_or res (str "difficultyBits") null) ++ str " bits"))
      ∷ (str "Challenge    : " ++ str_value R call (get_or res (str "challenge") null))
      ∷ (str "Nonce        : " ++ str_value R call (get_or res (str "nonce") null))
      ∷ rule 50
      ∷ []

  -- The rule is printed before the answer is read, so that an answer that is no dict stops behind it.
  unfoldable pub after_pow : List Str → Reply × Daemon → Ran
  after_pow printed (stopped lines, d) = record {
    printed = printed ++ lines;
    exit_code = 1;
    daemon = d;
  }
  after_pow printed (answered (obj res), d) = record {
    printed = printed ++ pow_report res;
    exit_code = 0;
    daemon = d;
  }
  after_pow printed (answered v, d) = record {
    printed = printed ++ rule 50 ∷ [];
    exit_code = 1;
    daemon = d;
  }

module _ (R : Runtime) (call : Call) (mx2_url : Str) (reachable : Bool) where
  unfoldable pub submit_nonce : List Str → Str → Str → ℕ → Daemon → Ran
  submit_nonce printed challenge nonce bits d = after_pow R call printed (
      request_api R call mx2_url reachable (str "/api/pow/verify")
        (pow_payload challenge nonce bits) d)

  unfoldable pub solve_and_submit : ℕ → Str → Str → ℕ → Daemon → Option Ran
  unfolding solve_from
  solve_and_submit fuel elapsed challenge bits d = elim (solve_from R challenge bits fuel 0) [
    | none ↦ none
    | some nonce ↦ some (
        submit_nonce (solving challenge bits ++ found_line elapsed nonce ∷ []) challenge
          (decimal nonce) bits d)
  ]

  -- `cmd_pow`
  unfoldable pub cmd_pow : ℕ → Str → PowArgs → Daemon → Option Ran
  cmd_pow fuel elapsed args d =
      let challenge = challenge_text call args in
      let searched = solve_and_submit fuel elapsed challenge args.bits d in
      if has_nonce args.nonce
      then (if args.solve
          then searched
          else some (submit_nonce [] challenge (given args.nonce) args.bits d))
      else searched
