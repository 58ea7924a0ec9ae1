-- ===== src/Tests/Engine.antt =====
-- The trust engine on small inputs.
use mx2_sandbox.Base.{
  ℕ, ◌+◌, ◌*◌, ◌^◌, ◌≡◌, ◌≢◌, ◌↔◌, ◌||◌, refl, Str, str, true, false, some, List, [], ◌∷◌, length,
  select, arith, nat_eq, list_eq, take, All,
}
use mx2_sandbox.Base.Text.{lower, strip}
use mx2_sandbox.Json.{truthy, null, text}
use mx2_sandbox.AntiSpam.{Engine}
use mx2_sandbox.AntiSpam.Quota.{get_hourly_count, is_recent, quota_key}
use mx2_sandbox.AntiSpam.Quota.Window.{Event, recorded, counted, run, sent, hourly_count_exact}
use mx2_sandbox.AntiSpam.Pow.{pow_digest, verify_proof_of_work}
use mx2_sandbox.AntiSpam.Pow.Bits.{bits, verify_proof_of_work_iff}
use mx2_sandbox.AntiSpam.Grade.{
  by_contacts, Sender, clean, quarantine, evaluate_trust_grade, is_on_whitelist, is_reputable,
  has_vouch, unknown_sender, vouched_by, on_whitelist,
}
use mx2_sandbox.AntiSpam.Grade.Rules.{
  route, first_grade, is_known, is_vouched, is_contact, evaluate_lem, quarantine_iff,
}
use mx2_sandbox.AntiSpam.Grade.Forged.{forged_token, forged_token_grade}
use mx2_sandbox.AntiSpam.Queue.{
  quarantine_message, approve_quarantined_sender, reject_quarantined_sender,
}
use mx2_sandbox.AntiSpam.Queue.Laws.{UniqueIds, is_held, queue-UniqueIds}
use mx2_sandbox.Sql.{select_one}
use mx2_sandbox.AntiSpam.Queue.Refinement.{
  Operation, put, approve, reject, queue_run, spec_run, queue_refines, backends_agree,
}
use mx2_sandbox.AntiSpam.Queue.Approval.{approved_sender_grade}
use mx2_sandbox.Tests.Machine.{machine, machine-IsLawful}
use mx2_sandbox.Tests.Data.{memory_engine, stored_engine, stranger}
use mx2_sandbox.Base.Decimal.{int_of}
use mx2_sandbox.Base.Dict.{lookup}

abbrev events : List Event
events =
    recorded (str "a.nl") (str "b.nl") 10
    ∷ counted (str "a.nl") (str "b.nl") (3600 * 10 ^ 6 + 5)
    ∷ recorded (str "A.nl ") (str "b.nl") (3600 * 10 ^ 6 + 20)
    ∷ []

abbrev later : ℕ
later = 3600 * 10 ^ 6 + 30

hourly_count_exact_example :
    (get_hourly_count (str "a.nl") (str "b.nl") later (run events memory_engine)).0
    ≡ length (select (is_recent later) (sent (quota_key (str "a.nl") (str "b.nl")) events))
hourly_count_exact_example =
    hourly_count_exact (str "a.nl") (str "b.nl") later events memory_engine
      (omega arith, (omega arith, (omega arith, tt))) refl

stranger_graded : evaluate_trust_grade machine memory_engine stranger 5 ≡ some unknown_sender
unfolding evaluate_trust_grade is_on_whitelist is_reputable list_eq strip lower has_vouch truthy
    unknown_sender by_contacts lookup
stranger_graded = refl

evaluate_lem_example :
    (unknown_sender.destination ≡ route unknown_sender.grade)
    × (unknown_sender.grade
        ≡ first_grade true
            (is_known memory_engine stranger)
            (is_vouched machine stranger 5)
            (is_contact memory_engine stranger))
evaluate_lem_example = evaluate_lem machine memory_engine stranger 5 unknown_sender stranger_graded

quarantine_iff_example :
    (unknown_sender.destination ≡ quarantine) ↔ (stranger.signature_valid ≡ false)
quarantine_iff_example =
    quarantine_iff machine memory_engine stranger 5 unknown_sender stranger_graded

abbrev forger : Sender
forger = record stranger {
  vouch_token = forged_token (str "x.nl") (str "9") (str "anykey");
  voucher_pubkey = str "anykey";
}

nine : machine.to_float (text (str "9")) ≡ some (9 * 10 ^ 6)
unfolding int_of strip
nine = refl

forger_unknown : (is_on_whitelist memory_engine forger || is_reputable forger) ≡ false
unfolding is_on_whitelist is_reputable list_eq strip lower
forger_unknown = refl

forged_token_grade_example :
    evaluate_trust_grade machine memory_engine forger 5 ≡ some (vouched_by (str "github.com"))
forged_token_grade_example =
    forged_token_grade machine memory_engine forger (str "x.nl") (str "9") 5 (9 * 10 ^ 6) nine
      (omega arith) refl (λ e. cc) refl forger_unknown

abbrev eve : Str
eve = str "eve@evil.net"

eve_is_named : clean eve ≢ []
unfolding lower strip
eve_is_named e = cc

same_sender : clean stranger.sender ≡ clean eve
unfolding lower
same_sender = refl

approved_sender_grade_example :
    evaluate_trust_grade machine
      (approve_quarantined_sender machine
        (str "m1")
        9
        (quarantine_message machine (str "m1") eve (str "hi") null 5 memory_engine)).1
      stranger
      20
    ≡ some on_whitelist
approved_sender_grade_example =
    approved_sender_grade machine (str "m1") eve (str "hi") null 5 9 memory_engine stranger 20 refl
      eve_is_named same_sender refl

abbrev one_held : Engine
one_held = record memory_engine {
  holding =
      record {
        message_id = str "m1";
        sender = eve;
        subject = str "hi";
        envelope = null;
        timestamp = 5;
      }
      ∷ [];
}

one_held-UniqueIds : UniqueIds one_held.holding
one_held-UniqueIds = (refl, tt)

queue-UniqueIds_example :
    UniqueIds (quarantine_message machine (str "m1") eve (str "hi") null 6 one_held).holding
    × UniqueIds (approve_quarantined_sender machine (str "m1") 6 one_held).1.holding
    × UniqueIds (reject_quarantined_sender (str "m1") one_held).1.holding
queue-UniqueIds_example =
    queue-UniqueIds machine (str "m1") eve (str "hi") null 6 one_held one_held-UniqueIds

verify_proof_of_work_iff_example :
    (verify_proof_of_work machine (str "work") (str "1") 10 ≡ true)
    ↔ All (λ c. c ≡ b'0') (take 10 (bits (pow_digest machine (str "work") (str "1"))))
verify_proof_of_work_iff_example =
    verify_proof_of_work_iff machine machine-IsLawful (str "work") (str "1") 10 (omega arith)

abbrev operations : List Operation
operations =
    put (str "m1") eve (str "hi") null 5
    ∷ approve (str "m2") 6
    ∷ put (str "m2") eve (str "ho") null 7
    ∷ reject (str "m1")
    ∷ approve (str "m2") 9
    ∷ []

nothing_held : (j : Str) → is_held j memory_engine ≡ is_held j stored_engine
unfolding select_one
nothing_held j = refl

empty-UniqueIds : UniqueIds []
empty-UniqueIds = tt

queue_refines_example :
    queue_run machine operations one_held ≡ spec_run operations (λ j. is_held j one_held)
queue_refines_example =
    queue_refines machine operations one_held (λ j. is_held j one_held) one_held-UniqueIds
      (λ j. refl)

backends_agree_example :
    queue_run machine operations memory_engine ≡ queue_run machine operations stored_engine
backends_agree_example =
    backends_agree machine operations memory_engine stored_engine empty-UniqueIds empty-UniqueIds
      nothing_held
