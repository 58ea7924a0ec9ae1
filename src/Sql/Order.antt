-- ===== src/Sql/Order.antt =====
-- ORDER BY … DESC, as src/storage.py uses it.
use mathlib.Core.List.{Perm}
use mathlib.Core.List.Perm
use mx2_sandbox.Base.{ℕ, ◌≤◌, List, [], ◌∷◌, ltb, All, arith, inl, inr, Bool-cases}
use mx2_sandbox.Sql.{insert_desc, order_desc}

module _ {R : Type 0} (stamp : R → ℕ) where
  abbrev pub Descending : List R → Type 0
  Descending [] = Unit
  Descending (r ∷ rows) = All (λ q. stamp q ≤ stamp r) rows × Descending rows

  insert_desc-All :
      (n : ℕ) (r : R) (rows : List R)
      → stamp r ≤ n
      → All (λ q. stamp q ≤ n) rows
      → All (λ q. stamp q ≤ n) (insert_desc stamp r rows)
  unfolding insert_desc
  insert_desc-All n r [] h u = (h, tt)
  insert_desc-All n r (q ∷ rows) h (k, u) = ground (arith, insert_desc-All n r rows h u)

  All-le_trans :
      (m n : ℕ) (rows : List R) → m ≤ n → All (λ q. stamp q ≤ m) rows → All (λ q. stamp q ≤ n) rows
  All-le_trans m n [] h u = tt
  All-le_trans m n (q ∷ rows) h (k, u) = (omega arith, All-le_trans m n rows h u)

  insert_desc-Descending :
      (r : R) (rows : List R) → Descending rows → Descending (insert_desc stamp r rows)
  unfolding insert_desc
  insert_desc-Descending r [] u = (tt, tt)
  insert_desc-Descending r (q ∷ rows) (k, u) = ground (
    arith,
    insert_desc-Descending r rows u,
    insert_desc-All (stamp q) r rows,
    All-le_trans (stamp q) (stamp r) rows,
  )

  pub order_desc-Descending : (rows : List R) → Descending (order_desc stamp rows)
  unfolding order_desc
  order_desc-Descending [] = tt
  order_desc-Descending (r ∷ rows) = insert_desc-Descending r _ (order_desc-Descending rows)

  insert_desc-perm : (r : R) (rows : List R) → Perm (insert_desc stamp r rows) (r ∷ rows)
  unfolding insert_desc
  insert_desc-perm r [] = Perm.refl (r ∷ [])
  insert_desc-perm r (q ∷ rows) = elim (Bool-cases (ltb (stamp r) (stamp q))) [
    | inl older ↦ rw older (Perm.trans (Perm.cons q (insert_desc-perm r rows)) (Perm.swap r q rows))
    | inr newer ↦ rw newer (Perm.refl (r ∷ q ∷ rows))
  ]

  pub order_desc-perm : (rows : List R) → Perm (order_desc stamp rows) rows
  unfolding order_desc
  order_desc-perm [] = Perm.refl []
  order_desc-perm (r ∷ rows) =
      Perm.trans (insert_desc-perm r (order_desc stamp rows)) (Perm.cons r (order_desc-perm rows))
