-- ===== src/Tests/Demonstration.antt =====
-- run_sandbox.py, and the requests of mx2ctl.py, on concrete inputs.
use mx2_sandbox.Base.{◌^◌, ◌≡◌, ◌≢◌, refl, str, true, none, some, [], ◌++◌, arith, nat_eq, list_eq}
use mx2_sandbox.Json.{obj, end}
use mx2_sandbox.Runtime.{Bytes}
use mx2_sandbox.AntiSpam.{new_engine}
use mx2_sandbox.AntiSpam.Grade.{
  reputable_domain, vouched_by, shared_contact, unknown_sender, spoofed_identity,
}
use mx2_sandbox.Server.Routes.{
  post, serve, pow_verify, unknown, endpoint_of, url_path, call_endpoint,
}
use mx2_sandbox.Server.Routes.Contract.{Answers}
use mx2_sandbox.Server.Routes.Contract.Replies.{endpoint_answers}
use mx2_sandbox.Ctl.Request.{request_api}
use mx2_sandbox.Ctl.Request.Outcome.{IsReadable, request_api-IsReadable}
use mx2_sandbox.Sandbox.Scenarios.{
  github_scenario, startup_scenario, friend_scenario, stranger_scenario, spoofed_scenario,
  scenarios, scenario_lines, run_scenarios,
}
use mx2_sandbox.Sandbox.Scenarios.Grades.{demo_held, scenario_grades}
use mx2_sandbox.Tests.Machine.{machine, machine-IsLawful}
use mx2_sandbox.Tests.Data.{call_at, daemon}
use mx2_sandbox.Base.Decimal.{int_of}
use mx2_sandbox.Base.Text.{strip}
use mx2_sandbox.Server.Routes.Paths.{cas_route}

endpoint_answers_example :
    Answers
      (call_at 1)
      (call_endpoint machine (call_at 1) pow_verify (str "/api/pow/verify") none daemon).0
endpoint_answers_example =
    endpoint_answers machine (call_at 1) pow_verify (str "/api/pow/verify") none daemon (λ e. cc)

cas_is_known : endpoint_of (url_path (str "/api/cas/download")) ≢ unknown
cas_is_known = rw cas_route (λ e. cc)

request_api-IsReadable_example :
    let (reply, after) =
      request_api machine
        (call_at 1)
        (str "http://127.0.0.1:8000")
        true
        (str "/api/cas/download")
        end
        daemon in
    let (response, served) =
      serve machine
        (call_at 1)
        (post (str "/api/cas/download") (machine.decode (machine.encode (machine.dumps (obj end)))))
        daemon in
    IsReadable (call_at 1) response reply × (after ≡ served)
request_api-IsReadable_example =
    request_api-IsReadable machine machine-IsLawful (call_at 1) (str "http://127.0.0.1:8000")
      (str "/api/cas/download") end daemon cas_is_known

machine-signs :
    (k m : Bytes)
    → machine.ed25519_verify (machine.ed25519_public k) (machine.ed25519_sign k m) m ≡ true
machine-signs k m = ground arith

scenario_grades_example :
    run_scenarios machine (λ n. n) 0 (scenarios machine (str "1")) (new_engine 100 none) ≡ (
      scenario_lines machine (github_scenario machine) reputable_domain
          ++ (scenario_lines machine
                (startup_scenario machine (str "1"))
                (vouched_by (str "trusted.nl"))
              ++ (scenario_lines machine (friend_scenario machine) shared_contact
                  ++ (scenario_lines machine (stranger_scenario machine) unknown_sender
                      ++ (scenario_lines machine (spoofed_scenario machine) spoofed_identity
                          ++ [])))),
      some (demo_held 4),
    )
unfolding int_of strip
scenario_grades_example =
    scenario_grades machine machine-IsLawful (λ n. n) (str "1") (10 ^ 6) machine-signs refl
      (omega arith)
