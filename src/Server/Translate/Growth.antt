-- ===== src/Server/Translate/Growth.antt =====
-- The content store under `_handle_translate` of src/web_server.py.
use mx2_sandbox.Base.{◌≡◌, Str, Option, [], arith, Option-cases, inl, inr}
use mx2_sandbox.Runtime.{Runtime}
use mx2_sandbox.Json.{Json}
use mx2_sandbox.Cas.{Store}
use mx2_sandbox.AntiSpam.Grade.{Trust}
use mx2_sandbox.Gateway.Translate.{translate_smtp_to_mx2}
use mx2_sandbox.Gateway.Body.Growth.{Keeps, process_message-Keeps}
use mx2_sandbox.Server.{Daemon, Call}
use mx2_sandbox.Server.Submission.{Submission}
use mx2_sandbox.Server.Translate.{
  translate_submission, translate_with, finish, translate_and_finish, check_quota, submit,
  handle_translate,
}

module _ (R : Runtime) (call : Call) where
  cas-finish :
      (s : Submission) (trust : Trust) (translated : Json) (d : Daemon)
      → (finish R call s trust translated d).1.cas ≡ d.cas
  unfolding finish
  cas-finish s trust translated d = ground arith

  cas-translate_and_finish :
      (s : Submission) (trust : Trust) (d : Daemon)
      → (translate_and_finish R call s trust d).1.cas ≡ (translate_submission R call s d.cas).1
  unfolding translate_and_finish
  cas-translate_and_finish s trust d = grind (arith, cas-finish)

  Keeps-translate_with :
      (s : Submission) (key : Str) (store : Store)
      → Keeps store (translate_with R call s key store).1
  unfolding translate_with translate_smtp_to_mx2
  Keeps-translate_with s key store = process_message-Keeps R _ _ store

  Keeps-translate_submission :
      (s : Submission) (store : Store) → Keeps store (translate_submission R call s store).1
  unfolding translate_submission
  Keeps-translate_submission s store hash c found = elim (Option-cases s.pubkey) [
    | inl bad ↦ ground (arith, bad, Keeps-translate_with s [] store hash c found)
    | inr (key, good) ↦ ground (arith, good, Keeps-translate_with s key store hash c found)
  ]

  Keeps-check_quota :
      (s : Submission) (trust : Trust) (d : Daemon)
      → Keeps d.cas (check_quota R call s trust d).1.cas
  unfolding check_quota
  Keeps-check_quota s trust d hash c found =
      grind (arith, cas-translate_and_finish, Keeps-translate_submission s d.cas hash c found)

  Keeps-submit : (s : Submission) (d : Daemon) → Keeps d.cas (submit R call s d).1.cas
  unfolding submit
  Keeps-submit s d hash c found = grind (arith, Keeps-check_quota)

  pub handle_translate-Keeps :
      (body : Option Str) (d : Daemon) → Keeps d.cas (handle_translate R call body d).1.cas
  unfolding handle_translate
  handle_translate-Keeps body d hash c found = grind (arith, Keeps-submit)
