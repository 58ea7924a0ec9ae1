-- ===== src/Storage/Whitelist.antt =====
-- The whitelist of src/storage.py as a set of cleaned identities.
use mx2_sandbox.Base.{
  ℕ, ◌≡◌, refl, Str, true, false, not, ◌&&◌, ◌||◌, none, some, List, [], ◌∷◌, map, arith, ◌==◌,
  nat_eq, list_eq, contains,
}
use mx2_sandbox.Base.Text.{lower, strip}
use mx2_sandbox.Sql.{select_one}
use mx2_sandbox.Sql.Laws.{select_one-insert_or_replace}
use mx2_sandbox.Storage.{Database, WhitelistRow, add_whitelist, is_whitelisted, get_whitelisted_set}

-- `identity.strip().lower()`
abbrev pub clean : Str → Str
clean s = lower (strip s)

-- After an identity is added, exactly it, unless it is blank, and what was there before are
-- whitelisted, up to case and white space at the ends.
pub is_whitelisted-add_whitelist :
    (i j : Str) (now : ℕ) (db : Database)
    → is_whitelisted j (add_whitelist i now db)
      ≡ ((not (clean i == []) && clean j == clean i) || is_whitelisted j db)
is_whitelisted-add_whitelist i j now db =
    unfold is_whitelisted add_whitelist in
    ground (
      arith,
      select_one-insert_or_replace (λ r. r.identity) (clean j)
          (record { identity = clean i; added_at = now }) db.whitelists,
    )

contains-select_one :
    (i : Str) (rows : List WhitelistRow)
    → contains (map (λ (r : WhitelistRow). r.identity) rows) i
      ≡ elim (select_one (λ r. r.identity) i rows) [ none ↦ false | some r ↦ true ]
unfolding select_one
contains-select_one i [] = refl
contains-select_one i (r ∷ rows) = ground (arith, contains-select_one i rows)

-- The set that the trust engine reads agrees with the method that looks an identity up.
pub contains-get_whitelisted_set :
    (i : Str) (db : Database) → contains (get_whitelisted_set db) (clean i) ≡ is_whitelisted i db
unfolding get_whitelisted_set is_whitelisted
contains-get_whitelisted_set i db = contains-select_one (clean i) db.whitelists
