-- ===== src/Sandbox/Scenarios.antt =====
-- Section 5 of run_sandbox.py: the trust grades of five senders.
pub mod Senders
pub mod Grades
use mx2_sandbox.Base.{
  ℕ, zero, suc, ◌+◌, Str, str, Bool, true, false, Option, none, some, List, [], ◌∷◌, ◌++◌, map,
  length, if◌then◌else◌,
}
use mx2_sandbox.Base.Decimal.{decimal}
use mx2_sandbox.Json.{Json, null, text, obj, end, dict}
use mx2_sandbox.Runtime.{Runtime, Bytes}
use mx2_sandbox.AntiSpam.{Engine, Held, new_engine}
use mx2_sandbox.AntiSpam.Grade.{
  Destination, inbox, junk, quarantine, Trust, Sender, evaluate_trust_grade,
}
use mx2_sandbox.AntiSpam.Queue.{quarantine_message}
use mx2_sandbox.Gateway.Keys.{parse_ed25519_private_key}
use mx2_sandbox.Server.Translate.{grade_text}
use mx2_sandbox.Server.Handlers.Trust.{destination_name}
use mx2_sandbox.Sandbox.{Section, then_section, print_banner}

pub record Scenario : Type 0 where
  pub name : Str
  pub sender : Str
  pub domain : Str
  pub vouch : Json
  pub sig_valid : Bool

abbrev pub demo_recipient : Str
demo_recipient = str "bob@example.com"

abbrev pub voucher_pubkey : Str
voucher_pubkey = str "MCowBQYDK2VwAyEAdS+7fGZ8A1839gBbcD81hS9bV2g327"

module _ (R : Runtime) where
  -- `f"{voucher_domain}_{vouched_domain}_{expires_ts}".encode()`
  abbrev pub data_to_sign : Str → Bytes
  data_to_sign expires_ts =
      R.encode
        (str "trusted.nl" ++ (str "_" ++ (str "untrusted-startup.net" ++ (str "_" ++ expires_ts))))

  abbrev pub signature_b64 : Str → Str
  signature_b64 expires_ts =
      R.b64encode
        (R.ed25519_sign (parse_ed25519_private_key R voucher_pubkey) (data_to_sign expires_ts))

  -- the token; `expires_ts` is the text of the time in an hour
  unfoldable pub demo_token : Str → Json
  demo_token expires_ts = dict (
      (str "vouchedDomain", text (str "untrusted-startup.net"))
      ∷ (str "voucherDomain", text (str "trusted.nl"))
      ∷ (str "expires", text expires_ts)
      ∷ (str "signature", text (signature_b64 expires_ts))
      ∷ [])

  abbrev pub github_scenario : Scenario
  github_scenario = record {
    name = str "Scenario 1: Reputable Domain (Grade A)";
    sender = str "notifications@github.com";
    domain = str "github.com";
    vouch = null;
    sig_valid = true;
  }

  abbrev pub startup_scenario : Str → Scenario
  startup_scenario expires_ts = record {
    name = str "Scenario 2: Vouched Startup Domain (Grade B)";
    sender = str "ceo@untrusted-startup.net";
    domain = str "untrusted-startup.net";
    vouch = demo_token expires_ts;
    sig_valid = true;
  }

  abbrev pub friend_scenario : Scenario
  friend_scenario = record {
    name = str "Scenario 3: Social Graph Contact (Grade C)";
    sender = str "friend@collaborator.com";
    domain = str "collaborator.com";
    vouch = null;
    sig_valid = true;
  }

  abbrev pub stranger_scenario : Scenario
  stranger_scenario = record {
    name = str "Scenario 4: Validated Unknown Domain (Grade D)";
    sender = str "newsletter@marketing-bot.com";
    domain = str "marketing-bot.com";
    vouch = null;
    sig_valid = true;
  }

  abbrev pub spoofed_scenario : Scenario
  spoofed_scenario = record {
    name = str "Scenario 5: Spoofed Domain Identity (Grade E)";
    sender = str "billing@github.com";
    domain = str "github.com";
    vouch = null;
    sig_valid = false;
  }

  abbrev pub scenarios : Str → List Scenario
  scenarios expires_ts =
      github_scenario
      ∷ startup_scenario expires_ts
      ∷ friend_scenario
      ∷ stranger_scenario
      ∷ spoofed_scenario
      ∷ []

  abbrev pub scenario_sender : Scenario → Sender
  scenario_sender sc = record {
    sender = sc.sender;
    sender_domain = sc.domain;
    recipient = demo_recipient;
    vouch_token = sc.vouch;
    voucher_pubkey = voucher_pubkey;
    signature_valid = sc.sig_valid;
  }

  abbrev pub is_quarantine : Destination → Bool
  is_quarantine quarantine = true
  is_quarantine _ = false

  unfoldable pub scenario_lines : Scenario → Trust → List Str
  scenario_lines sc result =
      (10 ∷ str "[*] Evaluating " ++ (sc.name ++ str "..."))
      ∷ (str "    - Computed Grade: " ++ grade_text result.grade)
      ∷ (str "    - Routing Target: " ++ destination_name result.destination)
      ∷ (str "    - Diagnostic: " ++ result.reason)
      ∷ (if is_quarantine result.destination
          then str "    [!] Placing unverified mail in Inbox Holding Queue..." ∷ []
          else [])

  unfoldable pub after_scenario : Scenario → Trust → ℕ → Engine → Engine
  after_scenario sc result now e =
      let held =
        quarantine_message R (str "q_msg_github_spoof") sc.sender (str "Update your credentials")
          (obj end) now e in
      if is_quarantine result.destination then held else e

  -- The loop; `clock n` is the time that scenario `n` reads.
  unfoldable pub run_scenarios : (ℕ → ℕ) → ℕ → List Scenario → Engine → Section Engine
  unfolding scenario_lines after_scenario
  run_scenarios clock n [] e = ([], some e)
  run_scenarios clock n (sc ∷ scs) e =
      elim (evaluate_trust_grade R e (scenario_sender sc) (clock n)) [
        | none ↦ ((10 ∷ str "[*] Evaluating " ++ (sc.name ++ str "...")) ∷ [], none)
        | some result ↦
            let (lines, last) =
              run_scenarios clock (n + 1) scs (after_scenario sc result (clock n) e) in
            (scenario_lines sc result ++ lines, last)
      ]

  unfoldable pub queue_lines : Engine → List Str
  queue_lines e =
      (10 ∷ str "Active Holding Queue Length (Grade E quarantine): " ++ decimal (length e.holding))
      ∷ map
          (λ m.
            str "    - ["
            ++ (m.message_id
                ++ (str "] Sender: " ++ (m.sender ++ (str " | Subject: " ++ m.subject)))))
          e.holding

  unfoldable pub trust_section : (ℕ → ℕ) → Str → Section Engine
  unfolding run_scenarios queue_lines
  trust_section clock expires_ts =
      then_section
        (print_banner (str "5. Automated Trust Routing (Grades A-E)"), some (new_engine 100 none))
        (λ e.
          then_section (run_scenarios clock 0 (scenarios expires_ts) e)
            (λ e'. (queue_lines e', some e')))
