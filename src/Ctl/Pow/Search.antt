-- ===== src/Ctl/Pow/Search.antt =====
-- The search of `cmd_pow` of mx2ctl.py.
use mx2_sandbox.Base.{
  ℕ, zero, suc, ◌+◌, ◌≤◌, ◌<◌, ◌≡◌, refl, ◌∙◌, ap, Str, Bool, true, false, some, Bool-cases, arith,
  inl, inr,
}
use native.Mathlib.Decide.{ℕ_discrete}
use mx2_sandbox.Base.Decimal.{decimal}
use mx2_sandbox.Runtime.{Runtime}
use mx2_sandbox.AntiSpam.Pow.{verify_proof_of_work}
use mx2_sandbox.Ctl.Pow.{solve_from}

module _ (R : Runtime) (challenge : Str) (bits : ℕ) where
  abbrev accepts : ℕ → Bool
  accepts nonce = verify_proof_of_work R challenge (decimal nonce) bits

  -- the least accepted number from a start
  abbrev Least : ℕ → ℕ → Type 0
  Least start m =
      (start ≤ m) × (accepts m ≡ true) × ((j : ℕ) → start ≤ j → j < m → accepts j ≡ false)

  from_next : (start m : ℕ) → accepts start ≡ false → Least (start + 1) m → Least start m
  from_next start m rejected (l, a, f) = (
    omega arith,
    a,
    λ j h k. elim (ℕ_discrete j start) [ yes e ↦ rw e rejected | no n ↦ f j (omega arith) k ],
  )

  start_is_Least : (start : ℕ) → accepts start ≡ true → Least start start
  start_is_Least start a = (omega arith, a, λ j h k. absurd (omega arith))

  solve_from-Least :
      (k fuel start : ℕ)
      → k < fuel
      → accepts (start + k) ≡ true
      → (m : ℕ) × (solve_from R challenge bits fuel start ≡ some m)
        × Least start m
        × (m ≤ start + k)
  unfolding solve_from
  solve_from-Least k zero start h a = absurd (omega arith)
  solve_from-Least zero (suc fuel) start h a =
      let e : accepts start ≡ true = ap accepts (omega arith) ∙ a in
      (start, rw e refl, start_is_Least start e, omega arith)
  solve_from-Least (suc k) (suc fuel) start h a = elim (Bool-cases (accepts start)) [
    | inl e ↦ (start, rw e refl, start_is_Least start e, omega arith)
    | inr e ↦
        let (m, found, least, bound) =
          solve_from-Least k fuel (start + 1) (omega arith) (ap accepts (omega arith) ∙ a) in
        (m, rw e found, from_next start m e least, omega arith)
  ]

  -- If some number is accepted as a nonce and the fuel exceeds it, the search from 0 ends: it finds
  -- an accepted number, and every number before that one is rejected.
  pub solve_from_terminates :
      (k fuel : ℕ)
      → k < fuel
      → verify_proof_of_work R challenge (decimal k) bits ≡ true
      → (m : ℕ) × (solve_from R challenge bits fuel 0 ≡ some m)
        × (m ≤ k)
        × (verify_proof_of_work R challenge (decimal m) bits ≡ true)
        × ((j : ℕ) → j < m → verify_proof_of_work R challenge (decimal j) bits ≡ false)
  solve_from_terminates k fuel h a =
      let (m, found, (l, accepted, rejected), bound) =
        solve_from-Least k fuel 0 h (ap accepts (omega arith) ∙ a) in
      (m, found, omega arith, accepted, λ j i. rejected j (omega arith) i)
