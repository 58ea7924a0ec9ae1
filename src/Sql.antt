-- ===== src/Sql.antt =====
-- The SQL statements that src/storage.py executes, over a table as its rows in rowid order. The key
-- of a row is its PRIMARY KEY.
pub mod Laws
pub mod Order
use mx2_sandbox.Base.{
  ℕ, ◌+◌, ◌-◌, ◌≤◌, ◌≡◌, ◌≢◌, refl, Str, Bool, true, false, Option, none, some, List, [], ◌∷◌, ◌++◌,
  ltb, leb, length, arith, ◌==◌, nat_eq, list_eq, if◌then◌else◌,
}

module _ {R : Type 0} (key : R → Str) where
  -- SELECT … WHERE key = k, and `fetchone`
  unfoldable pub select_one : Str → List R → Option R
  unfolding list_eq nat_eq
  select_one k [] = none
  select_one k (r ∷ rows) = if k == key r then some r else select_one k rows

  -- DELETE … WHERE key = k
  unfoldable pub delete_where : Str → List R → List R
  unfolding list_eq nat_eq
  delete_where k [] = []
  delete_where k (r ∷ rows) =
      let rest = delete_where k rows in if k == key r then rest else r ∷ rest

  -- the `rowcount` of that DELETE
  unfoldable pub count_where : Str → List R → ℕ
  unfolding list_eq nat_eq
  count_where k [] = 0
  count_where k (r ∷ rows) = let n = count_where k rows in if k == key r then n + 1 else n

  -- INSERT OR REPLACE: a row of the same key is deleted first, and the new row is the last
  unfoldable pub insert_or_replace : R → List R → List R
  unfolding delete_where
  insert_or_replace r rows = delete_where (key r) rows ++ r ∷ []

  -- what PRIMARY KEY promises
  abbrev pub UniqueKeys : List R → Type 0
  UniqueKeys [] = Unit
  UniqueKeys (r ∷ rows) = (select_one (key r) rows ≡ none) × UniqueKeys rows

-- SELECT … ORDER BY stamp DESC; rows of equal stamps come in rowid order
module _ {R : Type 0} (stamp : R → ℕ) where
  insert_desc : R → List R → List R
  insert_desc r [] = r ∷ []
  insert_desc r (q ∷ rows) =
      let rest = insert_desc r rows in if ltb (stamp r) (stamp q) then q ∷ rest else r ∷ q ∷ rows

  unfoldable pub order_desc : List R → List R
  unfolding insert_desc
  order_desc [] = []
  order_desc (r ∷ rows) = insert_desc r (order_desc rows)
