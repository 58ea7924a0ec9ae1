-- ===== src/Tests/Commands.antt =====
-- The commands of mx2ctl.py on concrete inputs.
use mx2_sandbox.Base.{
  ℕ, ◌-◌, ◌≤◌, ◌<◌, ◌≡◌, ◌≢◌, refl, Str, str, true, false, ◌||◌, Option, none, some, List, [], ◌∷◌,
  ◌++◌, map, reverse, arith, length, ◌==◌, nat_eq, list_eq, if◌then◌else◌,
}
use mx2_sandbox.Base.Decimal.{decimal}
use mx2_sandbox.Json.{get_or, truthy, Json, null, num}
use mx2_sandbox.Runtime.{Runtime, IsLawful}
use mx2_sandbox.AntiSpam.Pow.{leading_zeros, verify_proof_of_work}
use mx2_sandbox.AntiSpam.Queue.{holding_queue}
use mx2_sandbox.AntiSpam.Queue.Laws.{is_held}
use mx2_sandbox.Server.{Daemon}
use mx2_sandbox.Server.Translate.{translate_submission, message_id_of}
use mx2_sandbox.Server.Translate.Replies.{hourly_count, envelope_of}
use mx2_sandbox.Server.Routes.{counted}
use mx2_sandbox.Ctl.Terminal.{banner, closing, rule}
use mx2_sandbox.Ctl.Pow.{PowArgs, solve_from, challenge_text, verdict, solving, found_line, cmd_pow}
use mx2_sandbox.Ctl.Pow.Search.{solve_from_terminates}
use mx2_sandbox.Ctl.Pow.Answer.{cmd_pow_solves}
use mx2_sandbox.Ctl.Stats.{cmd_stats}
use mx2_sandbox.Ctl.Stats.Counters.{counter_lines, cmd_stats_shows}
use mx2_sandbox.Ctl.Queue.{list, approve, cmd_queue}
use mx2_sandbox.Ctl.Queue.Answer.{success_line, not_found_line, cmd_queue_decides}
use mx2_sandbox.Ctl.Queue.Listing.{shown_queue, held_rows, cmd_queue_lists}
use mx2_sandbox.Ctl.Mail.{smtp_payload, MailArgs, cmd_test}
use mx2_sandbox.Ctl.Mail.Spoofed.{
  mail_submission, quarantine_lines, cmd_test_spoofed, cmd_test_released,
}
use mx2_sandbox.Tests.Machine.{machine, machine-IsLawful, pad, pad-Is32}
use mx2_sandbox.Tests.Data.{call_at, daemon, memory_engine}
use mx2_sandbox.AntiSpam.Quota.{get_hourly_count}
use mx2_sandbox.Base.Dict.{lookup}
use mx2_sandbox.Base.Hex.{to_hex}
use mx2_sandbox.Base.Text.{split, strip}
use mx2_sandbox.Gateway.Body.{process_message, process_single, process_text_part}
use mx2_sandbox.Gateway.Header.{occurs}
use mx2_sandbox.Gateway.Hpke.{encrypt_payload}
use mx2_sandbox.Gateway.Translate.{
  addresses, did_or, features_or_default, inner_payload, outer_envelope, recipient_address,
  recipients_list, sender_address, translate_smtp_to_mx2,
}
use mx2_sandbox.Tests.Codec.{dump, load}

-- a digest whose first byte is 0 for a text that ends with "5" or a later digit
abbrev digest : List ℕ → List ℕ
digest b = map (λ x. 53 - x) (reverse b)

abbrev miner : Runtime
miner = record machine { sha256 = λ b. pad 32 (digest b) }

miner-IsLawful : IsLawful miner
miner-IsLawful = record {
  loads-dumps = machine-IsLawful.loads-dumps;
  loads-dumps_indent = machine-IsLawful.loads-dumps_indent;
  decode-encode = machine-IsLawful.decode-encode;
  decode_ignore-encode = machine-IsLawful.decode_ignore-encode;
  b64decode-b64encode = machine-IsLawful.b64decode-b64encode;
  sha256-Is32 = λ b. pad-Is32 (digest b);
  public-Is32 = machine-IsLawful.public-Is32;
  exchange_shared = machine-IsLawful.exchange_shared;
  decrypt-encrypt = machine-IsLawful.decrypt-encrypt;
}

accepted : verify_proof_of_work miner (str "job") (decimal 7) 8 ≡ true
unfolding verify_proof_of_work pad decimal
accepted = refl

solve_from_terminates_example :
    (m : ℕ) × (solve_from miner (str "job") 8 9 0 ≡ some m)
    × (m ≤ 7)
    × (verify_proof_of_work miner (str "job") (decimal m) 8 ≡ true)
    × ((j : ℕ) → j < m → verify_proof_of_work miner (str "job") (decimal j) 8 ≡ false)
solve_from_terminates_example = solve_from_terminates miner (str "job") 8 7 9 (omega arith) accepted

-- the search stops at 5
solve_from_test : solve_from miner (str "job") 8 9 0 ≡ some 5
unfolding solve_from verify_proof_of_work pad decimal leading_zeros
solve_from_test = refl

abbrev url : Str
url = str "http://127.0.0.1:8000"

abbrev pow_args : PowArgs
pow_args = record { challenge = some (str "job"); nonce = none; bits = 8; solve = false }

cmd_pow_solves_example :
    (m : ℕ) × (m ≤ 7)
    × (cmd_pow miner (call_at 1) url true 9 (str "0.1") pow_args daemon
        ≡ some (record {
          printed =
              solving (challenge_text (call_at 1) pow_args) 8
              ++ found_line (str "0.1") m
                ∷ rule 50
                ∷ (str "PoW Status   : " ++ verdict true)
                ∷ (str "Difficulty   : " ++ (miner.repr (num 8) ++ str " bits"))
                ∷ (str "Challenge    : " ++ challenge_text (call_at 1) pow_args)
                ∷ (str "Nonce        : " ++ decimal m)
                ∷ rule 50
                ∷ [];
          exit_code = 0;
          daemon = counted daemon;
        }))
unfolding challenge_text
cmd_pow_solves_example =
    cmd_pow_solves miner miner-IsLawful (call_at 1) url 9 7 (str "0.1") pow_args daemon refl
      (omega arith) accepted

cmd_stats_shows_example : cmd_stats machine (call_at 1) true daemon ≡ record {
  printed =
      banner (str " MX2 DAEMON LIVE TELEMETRY STATS ")
      ++ (counter_lines (counted daemon).metrics (length (holding_queue machine daemon.anti_spam))
          ++ closing ∷ []);
  exit_code = 0;
  daemon = counted daemon;
}
cmd_stats_shows_example = cmd_stats_shows machine machine-IsLawful (call_at 1) daemon

-- a daemon that holds a message
abbrev holder : Daemon
holder = record daemon {
  anti_spam = record memory_engine {
    holding =
        record {
          message_id = str "m1";
          sender = str "eve@evil.net";
          subject = str "hi";
          envelope = null;
          timestamp = 5;
        }
        ∷ [];
  };
}

cmd_queue_decides_example :
    let ran = cmd_queue machine (call_at 6) url true approve (some (str "m1")) holder in
    (ran.printed
      ≡ (if is_held (str "m1") holder.anti_spam
          then success_line approve (str "m1")
          else not_found_line)
        ∷ [])
    × (ran.exit_code ≡ (if is_held (str "m1") holder.anti_spam then 0 else 1))
    × (is_held (str "m2") ran.daemon.anti_spam
        ≡ (if str "m2" == str "m1" then false else is_held (str "m2") holder.anti_spam))
cmd_queue_decides_example =
    cmd_queue_decides machine machine-IsLawful (call_at 6) url approve (str "m1") (str "m2") holder
      (λ e. cc) (λ e. cc) (refl, tt)

cmd_queue_lists_example : cmd_queue machine (call_at 6) url true list none holder ≡ record {
  printed = shown_queue (held_rows holder.anti_spam);
  exit_code = 0;
  daemon = counted holder;
}
cmd_queue_lists_example = cmd_queue_lists machine machine-IsLawful (call_at 6) url none holder

-- a mail with the defaults, but spoofed
abbrev spoofed : MailArgs
spoofed = record { sender = none; recipient = none; subject = none; body = none; spoof = true }

abbrev json_or_null : Option Json → Json
json_or_null none = null
json_or_null (some v) = v

abbrev text_or_none : Option Str → Str
text_or_none none = []
text_or_none (some s) = s

abbrev envelope : Json
envelope = json_or_null (envelope_of machine (call_at 1) (mail_submission spoofed) daemon)

envelope_lem : envelope_of machine (call_at 1) (mail_submission spoofed) daemon ≡ some envelope
unfolding translate_submission translate_smtp_to_mx2 encrypt_payload load dump outer_envelope truthy
    to_hex pad inner_payload recipients_list addresses split list_eq strip process_message
    process_single process_text_part smtp_payload sender_address did_or occurs features_or_default
    recipient_address
envelope_lem = refl

abbrev held_id : Str
held_id = text_or_none (message_id_of machine (call_at 1) envelope)

held_id_lem : message_id_of machine (call_at 1) envelope ≡ some held_id
unfolding translate_submission translate_smtp_to_mx2 encrypt_payload load dump outer_envelope truthy
    to_hex pad inner_payload recipients_list addresses split list_eq strip process_message
    process_single process_text_part smtp_payload sender_address did_or occurs features_or_default
    recipient_address get_or
held_id_lem = refl

held_id-ne-nil : held_id ≢ []
unfolding translate_submission translate_smtp_to_mx2 encrypt_payload load dump outer_envelope truthy
    to_hex pad inner_payload recipients_list addresses split list_eq strip process_message
    process_single process_text_part smtp_payload sender_address did_or occurs features_or_default
    recipient_address get_or
held_id-ne-nil = λ e. cc

room :
    hourly_count (mail_submission spoofed) (call_at 1).now daemon.anti_spam
    < daemon.anti_spam.quota_limit
unfolding get_hourly_count lookup
room = omega arith

cmd_test_spoofed_example :
    let ran = cmd_test machine (call_at 1) url true spoofed daemon in
    (ran.printed ≡ quarantine_lines machine held_id envelope)
    × (ran.exit_code ≡ 0)
    × (is_held held_id ran.daemon.anti_spam
        ≡ (held_id == held_id || is_held held_id daemon.anti_spam))
cmd_test_spoofed_example =
    cmd_test_spoofed machine machine-IsLawful (call_at 1) url spoofed held_id held_id envelope
      daemon refl room envelope_lem held_id_lem held_id-ne-nil

cmd_test_released_example :
    let ran =
      cmd_queue machine
        (call_at 2)
        url
        true
        approve
        (some held_id)
        (cmd_test machine (call_at 1) url true spoofed daemon).daemon in
    (ran.printed ≡ success_line approve held_id ∷ []) × (ran.exit_code ≡ 0)
cmd_test_released_example =
    cmd_test_released machine machine-IsLawful (call_at 1) url spoofed held_id envelope (call_at 2)
      approve daemon refl room envelope_lem held_id_lem held_id-ne-nil (λ e. cc)
