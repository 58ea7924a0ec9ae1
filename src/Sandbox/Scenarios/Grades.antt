-- ===== src/Sandbox/Scenarios/Grades.antt =====
-- The grades that section 5 of run_sandbox.py gets from src/anti_spam.py.
use mx2_sandbox.Base.{
  ℕ, ◌+◌, ◌≤◌, ◌≡◌, refl, Str, str, true, Option, none, some, List, [], ◌∷◌, ◌++◌, nat_eq, list_eq,
}
use mx2_sandbox.Json.{text, obj, end}
use mx2_sandbox.Runtime.{Runtime, Bytes, IsLawful}
use mx2_sandbox.AntiSpam.{Engine, new_engine}
use mx2_sandbox.AntiSpam.Grade.{
  Trust, reputable_domain, vouched_by, shared_contact, unknown_sender, spoofed_identity,
  evaluate_trust_grade,
}
use mx2_sandbox.AntiSpam.Queue.{quarantine_message}
use mx2_sandbox.Sandbox.Scenarios.{
  Scenario, github_scenario, startup_scenario, friend_scenario, stranger_scenario, spoofed_scenario,
  scenarios, scenario_sender, scenario_lines, after_scenario, run_scenarios,
}
use mx2_sandbox.Sandbox.Scenarios.Senders.{demo_engine, github, startup, friend, stranger, spoofed}

-- the engine behind the demonstration
abbrev pub demo_held : ℕ → Engine
demo_held now = record demo_engine {
  holding =
      record {
        message_id = str "q_msg_github_spoof";
        sender = str "billing@github.com";
        subject = str "Update your credentials";
        envelope = obj end;
        timestamp = now;
      }
      ∷ [];
}

module _ (R : Runtime) (L : IsLawful R) where
  run_step :
      (clock : ℕ → ℕ) (n : ℕ) (sc : Scenario) (scs : List Scenario) (e e' : Engine) (result : Trust)
      (lines : List Str) (last : Option Engine)
      → evaluate_trust_grade R e (scenario_sender R sc) (clock n) ≡ some result
      → after_scenario R sc result (clock n) e ≡ e'
      → run_scenarios R clock (n + 1) scs e' ≡ (lines, last)
      → run_scenarios R clock n (sc ∷ scs) e ≡ (scenario_lines R sc result ++ lines, last)
  unfolding run_scenarios
  run_step clock n sc scs e e' result lines last h k r = rw (run_scenarios, h, k, r) refl

  run_end : (clock : ℕ → ℕ) (n : ℕ) (e : Engine) → run_scenarios R clock n [] e ≡ ([], some e)
  unfolding run_scenarios
  run_end clock n e = refl

  spoofed_is_held :
      (now : ℕ)
      → after_scenario R (spoofed_scenario R) spoofed_identity now demo_engine ≡ demo_held now
  unfolding after_scenario quarantine_message spoofed_identity
  spoofed_is_held now = refl

  reputable_not_held :
      (now : ℕ)
      → after_scenario R (github_scenario R) reputable_domain now demo_engine ≡ demo_engine
  unfolding after_scenario reputable_domain
  reputable_not_held now = refl

  vouched_not_held :
      (expires : Str) (now : ℕ)
      → after_scenario R
          (startup_scenario R expires)
          (vouched_by (str "trusted.nl"))
          now
          demo_engine
        ≡ demo_engine
  unfolding after_scenario vouched_by
  vouched_not_held expires now = refl

  contact_not_held :
      (now : ℕ) → after_scenario R (friend_scenario R) shared_contact now demo_engine ≡ demo_engine
  unfolding after_scenario shared_contact
  contact_not_held now = refl

  unknown_not_held :
      (now : ℕ)
      → after_scenario R (stranger_scenario R) unknown_sender now demo_engine ≡ demo_engine
  unfolding after_scenario unknown_sender
  unknown_not_held now = refl

  -- The five scenarios of the demonstration, over a lawful runtime whose signatures verify, where
  -- the token's time is read and has not passed when the second scenario is evaluated: they are
  -- graded, in their order, as a reputable domain, as vouched for by trusted.nl, as a shared contact,
  -- as an unknown sender and as a spoofed identity, and exactly the last one is left in the queue.
  pub scenario_grades :
      (clock : ℕ → ℕ) (expires : Str) (ends : ℕ)
      → ((k m : Bytes) → R.ed25519_verify (R.ed25519_public k) (R.ed25519_sign k m) m ≡ true)
      → R.to_float (text expires) ≡ some ends
      → clock 1 ≤ ends
      → run_scenarios R clock 0 (scenarios R expires) (new_engine 100 none) ≡ (
        scenario_lines R (github_scenario R) reputable_domain
            ++ (scenario_lines R (startup_scenario R expires) (vouched_by (str "trusted.nl"))
                ++ (scenario_lines R (friend_scenario R) shared_contact
                    ++ (scenario_lines R (stranger_scenario R) unknown_sender
                        ++ (scenario_lines R (spoofed_scenario R) spoofed_identity ++ [])))),
        some (demo_held (clock 4)),
      )
  scenario_grades clock expires ends signs e h =
      run_step clock 0 (github_scenario R) _ demo_engine demo_engine reputable_domain _ _
        (github R L (clock 0)) (reputable_not_held (clock 0))
        (run_step clock 1 (startup_scenario R expires) _ demo_engine demo_engine
          (vouched_by (str "trusted.nl")) _ _ (startup R L expires (clock 1) ends signs e h)
          (vouched_not_held expires (clock 1))
          (run_step clock 2 (friend_scenario R) _ demo_engine demo_engine shared_contact _ _
            (friend R L (clock 2)) (contact_not_held (clock 2))
            (run_step clock 3 (stranger_scenario R) _ demo_engine demo_engine unknown_sender _ _
              (stranger R L (clock 3)) (unknown_not_held (clock 3))
              (run_step clock 4 (spoofed_scenario R) [] demo_engine (demo_held (clock 4))
                spoofed_identity [] _ (spoofed R L (clock 4)) (spoofed_is_held (clock 4))
                (run_end clock 5 (demo_held (clock 4)))))))
