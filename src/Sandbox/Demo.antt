-- ===== src/Sandbox/Demo.antt =====
-- Sections 6 and 7 and `run_demo` of run_sandbox.py.
use mx2_sandbox.Base.{ℕ, Str, str, false, Option, none, some, List, [], ◌∷◌, ◌++◌, if◌then◌else◌}
use mx2_sandbox.Base.Decimal.{decimal}
use mx2_sandbox.Json.{Json, bool, text, dict}
use mx2_sandbox.Runtime.{Runtime}
use mx2_sandbox.Cas.{Store}
use mx2_sandbox.AntiSpam.{Engine}
use mx2_sandbox.AntiSpam.Pow.{verify_proof_of_work}
use mx2_sandbox.Gateway.Translate.{Fresh}
use mx2_sandbox.Ctl.Pow.{solve_from}
use mx2_sandbox.Sandbox.{Section, then_section, print_banner}
use mx2_sandbox.Sandbox.Envelope.{
  negotiation_section, translation_section, decryption_section, receipt_section,
}
use mx2_sandbox.Sandbox.Scenarios.{demo_recipient, trust_section}

-- What a run reads: draws, times as text, the clock of the scenarios, the duration of the search, and
-- the text of an exception.
pub record Inputs : Type 0 where
  pub fresh : Fresh
  pub timestamp : Str
  pub expires_ts : Str
  pub clock : ℕ → ℕ
  pub time_text : Str
  pub elapsed : Str
  pub error_text : Str
  pub store : Store

abbrev pub challenge_payload : Str → Str
challenge_payload time_text = demo_recipient ++ (str ":newsletter@marketing-bot.com:" ++ time_text)

abbrev pub puzzle_head : Str → List Str
puzzle_head challenge =
    print_banner (str "6. Active Proof-of-Work Anti-Spam Challenge")
    ++ str "[*] Senders on Grade D (Unknown) paths must solve a CPU puzzle to deliver."
      ∷ (str "    - Challenge Payload: " ++ challenge)
      ∷ str "    - Computing 12-bit collision nonce..."
      ∷ []

unfoldable pub puzzle_found : Runtime → Str → Str → ℕ → List Str
puzzle_found R challenge elapsed nonce =
    (str "    [+] Found valid nonce: "
      ++ (decimal nonce ++ (str " (took " ++ (elapsed ++ str " seconds)"))))
    ∷ (str "    - Verifying nonce: "
        ++ (if verify_proof_of_work R challenge (decimal nonce) 12
            then str "VALID"
            else str "INVALID"))
    ∷ []

-- section 6, which runs on while no nonce is found
unfoldable pub puzzle_section : Runtime → ℕ → Str → Str → Option (List Str)
unfolding puzzle_found
puzzle_section R fuel challenge elapsed = elim (solve_from R challenge 12 fuel 0) [
  | none ↦ none
  | some nonce ↦ some (puzzle_head challenge ++ puzzle_found R challenge elapsed nonce)
]

abbrev pub error_payload : Json
error_payload = dict (
    (str "success", bool false)
    ∷ (
      str "error",
      dict (
          (str "code", text (str "ERR_EMPTY_PAYLOAD"))
          ∷ (
            str "message",
            text (
                str
                  "De e-mailinhoud is leeg of kon niet correct worden gelezen. Controleer je SMTP-invoer."),
          )
          ∷ (str "type", text (str "validation"))
          ∷ (str "details", dict ((str "timestamp", text (str "2026-07-16T12:00:00Z")) ∷ []))
          ∷ []),
    )
    ∷ [])

abbrev pub error_section : Runtime → List Str
error_section R =
    print_banner (str "7. Structured Human-Readable JSON Errors")
    ++ str "Simulating error response for an empty email submission..."
      ∷ (R.dumps_indent error_payload ∷ print_banner (str "Sandbox Demo Completed Successfully"))

module _ (R : Runtime) (inputs : Inputs) where
  -- sections 1 to 5
  unfoldable pub first_sections : Section Engine
  first_sections =
      then_section
        (
          str "Initializing MX2 Local Development Sandbox Demo (v11)..."
              ∷ (negotiation_section R).0,
          (negotiation_section R).1,
        )
        (λ n.
          then_section (translation_section R inputs.error_text inputs.fresh inputs.store n)
            (λ envelope. then_section (decryption_section R inputs.error_text envelope) (λ opened.
              then_section (receipt_section R inputs.error_text inputs.timestamp opened)
                (λ receipt. trust_section R inputs.clock inputs.expires_ts))))

  -- the sections behind the fifth, if the script got there, and the exit code
  unfoldable pub last_sections : ℕ → Section Engine → Option (List Str × ℕ)
  unfolding puzzle_section
  last_sections fuel (lines, none) = some (lines, 1)
  last_sections fuel (lines, some e) =
      elim (puzzle_section R fuel (challenge_payload inputs.time_text) inputs.elapsed) [
        | none ↦ none
        | some more ↦ some (lines ++ (more ++ error_section R), 0)
      ]

  -- `run_demo`: what is printed and the exit code, and `none` while section 6 runs
  unfoldable pub run_demo : ℕ → Option (List Str × ℕ)
  unfolding first_sections last_sections
  run_demo fuel = last_sections fuel first_sections
