-- ===== src/Server/Routes/Contract.antt =====
-- The form of the replies of src/web_server.py to a POST.
pub mod Handlers
pub mod Translate
pub mod Replies
use mx2_sandbox.Base.{
  ℕ, ◌≤◌, ◌≡◌, ◌⊎◌, refl, Str, str, Bool, true, false, Option, none, some, arith, if◌then◌else◌,
  inl, inr,
}
use mx2_sandbox.Json.{bool, obj, Fields, field}
use mx2_sandbox.Server.{Call, Response, send_json, send_error}
use mx2_sandbox.Server.Translate.{translation_failed}

-- a dict that begins with a success, and status 200
abbrev pub Succeeds : Response → Type 0
Succeeds r = (fs : Fields) × (r ≡ send_json (obj (field (str "success") (bool true) fs)) 200)

-- an error with its code, message and kind, and a status from 400 on
abbrev pub Fails : Call → Response → Type 0
Fails call r =
    (code message kind : Str) × (status : ℕ) × (400 ≤ status)
    × (r ≡ send_error code message kind status call)

abbrev pub Answers : Call → Response → Type 0
Answers call r = Succeeds r ⊎ Fails call r

module _ (call : Call) where
  pub good :
      (fs : Fields) → Answers call (send_json (obj (field (str "success") (bool true) fs)) 200)
  good fs = inl (fs, refl)

  pub bad :
      (code message kind : Str) (status : ℕ)
      → 400 ≤ status
      → Answers call (send_error code message kind status call)
  bad code message kind status h = inr (code, message, kind, status, h, refl)

  pub translation_failed-Answers : Answers call (translation_failed call)
  translation_failed-Answers = unfold translation_failed in bad _ _ _ 500 (omega arith)

  -- the answers of the branches are those of a test, of an option and of its pairs
  pub both :
      (b : Bool) {x y : Response}
      → Answers call x
      → Answers call y
      → Answers call (if b then x else y)
  both true h k = h
  both false h k = k

  pub either :
      {A : Type 0} (o : Option A) {n : Response} {f : A → Response}
      → Answers call n
      → ((a : A) → Answers call (f a))
      → Answers call (elim o [ none ↦ n | some a ↦ f a ])
  either none h k = h
  either (some a) h k = k a
