-- ===== src/Sql/Laws.antt =====
-- The statements of src/storage.py: which row a key selects after each of them.
use mx2_sandbox.Base.{
  ◌≡◌, refl, Str, true, false, none, some, List, [], ◌∷◌, ◌++◌, ltb, arith, ◌==◌, nat_eq, list_eq,
  if◌then◌else◌,
}
use mx2_sandbox.Sql.{select_one, delete_where, count_where, insert_or_replace, UniqueKeys}

module _ {R : Type 0} (key : R → Str) where
  pub select_one-delete_where :
      (j k : Str) (rows : List R)
      → select_one key j (delete_where key k rows)
        ≡ (if j == k then none else select_one key j rows)
  unfolding select_one delete_where
  select_one-delete_where j k [] = ground arith
  select_one-delete_where j k (r ∷ rows) = ground (arith, select_one-delete_where j k rows)

  select_one-append :
      (j : Str) (rows : List R) (r : R)
      → select_one key j (rows ++ r ∷ []) ≡ elim (select_one key j rows) [
        | none ↦ if j == key r then some r else none
        | some q ↦ some q
      ]
  unfolding select_one
  select_one-append j [] r = refl
  select_one-append j (q ∷ rows) r = ground (arith, select_one-append j rows r)

  pub select_one-insert_or_replace :
      (j : Str) (r : R) (rows : List R)
      → select_one key j (insert_or_replace key r rows)
        ≡ (if j == key r then some r else select_one key j rows)
  select_one-insert_or_replace j r rows =
      unfold insert_or_replace in
      ground (
        arith,
        select_one-append j (delete_where key (key r) rows) r,
        select_one-delete_where j (key r) rows,
      )

  pub delete_where-UniqueKeys :
      (k : Str) (rows : List R) → UniqueKeys key rows → UniqueKeys key (delete_where key k rows)
  unfolding delete_where
  delete_where-UniqueKeys k [] u = tt
  delete_where-UniqueKeys k (r ∷ rows) (fresh, u) =
      ground (arith, delete_where-UniqueKeys k rows u, select_one-delete_where (key r) k rows)

  append-UniqueKeys :
      (rows : List R) (r : R)
      → select_one key (key r) rows ≡ none
      → UniqueKeys key rows
      → UniqueKeys key (rows ++ r ∷ [])
  unfolding select_one
  append-UniqueKeys [] r fresh u = (refl, tt)
  append-UniqueKeys (q ∷ rows) r fresh (old, u) =
      ground (arith, append-UniqueKeys rows r, select_one-append (key q) rows r)

  pub insert_or_replace-UniqueKeys :
      (r : R) (rows : List R) → UniqueKeys key rows → UniqueKeys key (insert_or_replace key r rows)
  unfolding insert_or_replace
  insert_or_replace-UniqueKeys r rows u =
      append-UniqueKeys (delete_where key (key r) rows) r
        (rw select_one-delete_where (ground arith)) (delete_where-UniqueKeys (key r) rows u)

  -- A DELETE reports a row exactly when its key selects one.
  pub count_where-pos :
      (k : Str) (rows : List R)
      → ltb 0 (count_where key k rows)
        ≡ elim (select_one key k rows) [ none ↦ false | some r ↦ true ]
  unfolding count_where select_one
  count_where-pos k [] = refl
  count_where-pos k (r ∷ rows) = ground (arith, count_where-pos k rows)
