-- ===== src/Store/Table.antt =====
-- What the statements of internal/store share: constraints, ordering, NULL columns and
-- `checkAffected` of internal/store/mutations.go.
use node_panel.Prelude.{
  ℕ, String, Option, none, some, List, [], ◌∷◌, Bool, true, false, ◌==◌, any, if◌then◌else◌, eqb,
}
use node_panel.Prelude.Int.{ℤ, ltb_ℤ}
use node_panel.Schema.{Db}
use node_panel.Runtime.{Env}
use node_panel.Runtime.Exec.{Err, not_found, Result, ok, err, Exec, statement, ◌>>=◌, raise, return}

-- `sql.NullString.String`, `COALESCE(…, '')`
abbrev pub null_string : Option String → String
null_string none = ""
null_string (some s) = s

abbrev pub holds : String → Option String → Bool
holds s none = false
holds s (some t) = t == s

-- a foreign key that may be NULL
abbrev pub references {ℓ} : {A : Type ℓ} → (A → String) → List A → Option String → Bool
references key rows none = true
references key rows (some id) = any (λ r. key r == id) rows

-- A foreign key is checked only on a connection that enforces foreign keys.
abbrev pub checked : Db → Bool → Bool
checked db present = if db.shape.foreign_keys then present else true

abbrev pub foreign_key : String
foreign_key = "FOREIGN KEY constraint failed"

abbrev pub unique : String
unique = "UNIQUE constraint failed"

-- ORDER BY created_at DESC; rows of one time stay in the order of the table.
module _ {A : Type 0} (time : A → ℤ) where
  abbrev pub place : A → List A → List A
  place x [] = x ∷ []
  place x (y ∷ ys) =
      let rest = place x ys in if ltb_ℤ (time x) (time y) then y ∷ rest else x ∷ y ∷ ys

  abbrev pub newest_first : List A → List A
  newest_first [] = []
  newest_first (x ∷ xs) = place x (newest_first xs)

module _ ⦃env : Env⦄ where
  abbrev answer : {A : Type 0} → Db → Result Err A → Result Err (A × Db)
  answer db (ok a) = ok (a, db)
  answer db (err e) = err e

  -- a SELECT
  abbrev pub query : {A : Type 0} → (Db → Result Err A) → Exec Err A
  query f = statement (λ db. answer db (f db))

  abbrev pub check_affected : Exec Err ℕ → Exec Err (Unit {0})
  check_affected m = do n ← m; if eqb n 0 then raise not_found else return tt
