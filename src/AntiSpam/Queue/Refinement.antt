-- ===== src/AntiSpam/Queue/Refinement.antt =====
-- The holding queue of src/anti_spam.py against an abstract one, the set of the held ids.
use mx2_sandbox.Base.{
  ℕ, ◌≡◌, refl, sym, ◌∙◌, ap, Str, Bool, true, false, ◌||◌, List, [], ◌∷◌, ◌==◌, nat_eq, list_eq,
  if◌then◌else◌,
}
use mx2_sandbox.Json.{Json}
use mx2_sandbox.Runtime.{Runtime}
use mx2_sandbox.AntiSpam.{Engine}
use mx2_sandbox.AntiSpam.Queue.{
  quarantine_message, approve_quarantined_sender, reject_quarantined_sender,
}
use mx2_sandbox.AntiSpam.Queue.Laws.{
  UniqueIds, is_held, queue-UniqueIds, is_held-quarantine_message, is_held-approve, is_held-reject,
}

-- the operations, with their arguments
pub data Operation : Type 0 where
  put : Str → Str → Str → Json → ℕ → Operation
  approve : Str → ℕ → Operation
  reject : Str → Operation

-- the abstract queue: which ids are held
abbrev pub IdSet : Type 0
IdSet = Str → Bool

-- The abstract operations: the success that is reported, and the new set.
abbrev pub spec_step : Operation → IdSet → Bool × IdSet
spec_step (put id sender subject envelope now) held = (true, λ j. j == id || held j)
spec_step (approve id now) held = (held id, λ j. if j == id then false else held j)
spec_step (reject id) held = (held id, λ j. if j == id then false else held j)

abbrev pub spec_run : List Operation → IdSet → List Bool
spec_run [] held = []
spec_run (op ∷ ops) held = (spec_step op held).0 ∷ spec_run ops (spec_step op held).1

module _ (R : Runtime) where
  abbrev pub queue_step : Operation → Engine → Bool × Engine
  queue_step (put id sender subject envelope now) e =
      (true, quarantine_message R id sender subject envelope now e)
  queue_step (approve id now) e =
      let (result, e') = approve_quarantined_sender R id now e in (result.0, e')
  queue_step (reject id) e = reject_quarantined_sender id e

  abbrev pub queue_run : List Operation → Engine → List Bool
  queue_run [] e = []
  queue_run (op ∷ ops) e = (queue_step op e).0 ∷ queue_run ops (queue_step op e).1

  step-UniqueIds :
      (op : Operation) (e : Engine) → UniqueIds e.holding → UniqueIds (queue_step op e).1.holding
  step-UniqueIds (put id sender subject envelope now) e u =
      (queue-UniqueIds R id sender subject envelope now e u).0
  step-UniqueIds (approve id now) e u = (queue-UniqueIds R id [] [] Json.null now e u).1
  step-UniqueIds (reject id) e u = (queue-UniqueIds R id [] [] Json.null 0 e u).2

  step_refines :
      (op : Operation) (e : Engine) (held : IdSet)
      → UniqueIds e.holding
      → ((j : Str) → held j ≡ is_held j e)
      → ((queue_step op e).0 ≡ (spec_step op held).0)
        × ((j : Str) → (spec_step op held).1 j ≡ is_held j (queue_step op e).1)
  step_refines (put id sender subject envelope now) e held u same = (
    refl,
    λ j.
        ap (λ b. j == id || b) (same j)
        ∙ sym (is_held-quarantine_message R id sender subject envelope now e j),
  )
  step_refines (approve id now) e held u same = (
    (is_held-approve R id now e id u).0 ∙ sym (same id),
    λ j. ap (λ b. if j == id then false else b) (same j) ∙ sym (is_held-approve R id now e j u).1,
  )
  step_refines (reject id) e held u same = (
    (is_held-reject R id e id u).0 ∙ sym (same id),
    λ j. ap (λ b. if j == id then false else b) (same j) ∙ sym (is_held-reject R id e j u).1,
  )

  -- From an engine whose queue in memory has each id at most once: the set of the held ids determines
  -- what the operations report. The queue refines the abstract one over every sequence of
  -- operations, with either backend.
  pub queue_refines :
      (ops : List Operation) (e : Engine) (held : IdSet)
      → UniqueIds e.holding
      → ((j : Str) → held j ≡ is_held j e)
      → queue_run ops e ≡ spec_run ops held
  queue_refines [] e held u same = refl
  queue_refines (op ∷ ops) e held u same =
      let (reported, next) = step_refines op e held u same in
      rw reported (
        ap (λ (bs : List Bool). (spec_step op held).0 ∷ bs)
          (queue_refines ops (queue_step op e).1 (spec_step op held).1 (step-UniqueIds op e u)
            next))

  -- Two engines that hold the same ids, each id in memory once, report the same successes over every
  -- sequence of operations, whatever their backends are.
  pub backends_agree :
      (ops : List Operation) (e e' : Engine)
      → UniqueIds e.holding
      → UniqueIds e'.holding
      → ((j : Str) → is_held j e ≡ is_held j e')
      → queue_run ops e ≡ queue_run ops e'
  backends_agree ops e e' u u' same =
      queue_refines ops e (λ j. is_held j e) u (λ j. refl)
      ∙ sym (queue_refines ops e' (λ j. is_held j e) u' same)
