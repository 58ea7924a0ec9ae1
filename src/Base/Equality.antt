-- ===== src/Base/Equality.antt =====
-- Python's `==` and `in`, at the types whose equality is decided.
use Prim.Native.Nat.{ℕ}
use mathlib.Core.Path.{◌≡◌, refl, ap, ap₂}
use mathlib.Core.Logic.{ite}
use mathlib.Core.Bool.{Bool, true, false, ◌||◌}
use mathlib.Core.List.{List, [], ◌∷◌}
use native.Mathlib.Decide.{ℕ_discrete}

pub record Eq {ℓ} (A : Type ℓ) : Type ℓ where
  pub dec : Discrete A

infix 50 ◌==◌
abbrev pub ◌==◌ {ℓ} : {A : Type ℓ} ⦃e : Eq A⦄ → A → A → Bool
◌==◌ ⦃e⦄ a b = ite (e.dec a b) true false

abbrev pub contains {ℓ} : {A : Type ℓ} ⦃e : Eq A⦄ → List A → A → Bool
contains [] a = false
contains (x ∷ xs) a = a == x || contains xs a

instance unfoldable pub nat_eq : Eq ℕ
unfolding ℕ_discrete
nat_eq = record { dec = ℕ_discrete }

module _ {ℓ} {A : Type ℓ} where
  abbrev first : A → List A → A
  first d [] = d
  first d (x ∷ xs) = x

  abbrev rest : List A → List A
  rest [] = []
  rest (x ∷ xs) = xs

  abbrev IsCons : List A → Type 0
  IsCons [] = ⊥
  IsCons (x ∷ xs) = Unit

  cons_dec : {x y : A} {xs ys : List A} → Dec (x ≡ y) → Dec (xs ≡ ys) → Dec ((x ∷ xs) ≡ (y ∷ ys))
  cons_dec (yes p) (yes q) = yes (ap₂ ◌∷◌ p q)
  cons_dec (yes p) (no n) = no (λ e. n (ap rest e))
  cons_dec {x = x} (no n) d = no (λ e. n (ap (first x) e))

  list_dec : Discrete A → Discrete (List A)
  list_dec d [] [] = yes refl
  list_dec d [] (y ∷ ys) = no (λ e. cc)
  list_dec d (x ∷ xs) [] = no (λ e. cc)
  list_dec d (x ∷ xs) (y ∷ ys) = cons_dec (d x y) (list_dec d xs ys)

module _ {ℓ κ} {A : Type ℓ} {B : Type κ} where
  pair_parts : {a b : A} {c d : B} → Dec (a ≡ b) → Dec (c ≡ d) → Dec (◌≡◌ {A = A × B} (a, c) (b, d))
  pair_parts (yes p) (yes q) = yes (λ i. (p i, q i))
  pair_parts (yes p) (no n) = no (λ e. n (ap (λ (t : A × B). t.1) e))
  pair_parts (no n) d = no (λ e. n (ap (λ (t : A × B). t.0) e))

  pair_dec : Discrete A → Discrete B → Discrete (A × B)
  pair_dec d e (a, c) (b, f) = pair_parts (d a b) (e c f)

instance unfoldable pub list_eq {ℓ} : {A : Type ℓ} ⦃e : Eq A⦄ → Eq (List A)
unfolding list_dec cons_dec
list_eq ⦃e⦄ = record { dec = list_dec e.dec }

instance unfoldable pub pair_eq {ℓ κ} : {A : Type ℓ} {B : Type κ} ⦃e : Eq A⦄ ⦃f : Eq B⦄ → Eq (A × B)
unfolding pair_dec pair_parts
pair_eq ⦃e⦄ ⦃f⦄ = record { dec = pair_dec e.dec f.dec }
