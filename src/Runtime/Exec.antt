-- ===== src/Runtime/Exec.antt =====
-- Calls that change the state and may fail. What was changed before a failure stays changed, so
-- the state comes back beside an error too. A store call fails with a Go `error`; a handler ends
-- early with the response that it has written.
pub mod Ends
pub mod Keeps
use node_panel.Prelude.{String, none, some, ◌≡◌, refl, ◌⊎◌, inl, inr}
use node_panel.Prelude.Int.{ℤ}
use node_panel.Schema.{Db}
use node_panel.Runtime.{Env, World, next}

pub data Err : Type 0 where
  not_found : Err
  failure : String → Err

abbrev pub error_text : Err → String
error_text not_found = "not found"
error_text (failure s) = s

pub data Result (E A : Type 0) : Type 0 where
  ok : A → Result E A
  err : E → Result E A

abbrev pub Exec : Type 0 → Type 0 → Type 0
Exec E A = World → Result E A × World

abbrev pub return : {E A : Type 0} → A → Exec E A
return a w = (ok a, w)

abbrev pub raise : {E A : Type 0} → E → Exec E A
raise e w = (err e, w)

abbrev pub follow : {E A B : Type 0} → Result E A → (A → Exec E B) → Exec E B
follow (ok a) f w = f a w
follow (err e) f w = (err e, w)

infixl 5 ◌>>=◌ ◌>>◌
abbrev pub ◌>>=◌ : {E A B : Type 0} → Exec E A → (A → Exec E B) → Exec E B
◌>>=◌ m f w = let (r, w') = m w in follow r f w'

abbrev pub ◌>>◌ : {E A B : Type 0} → Exec E A → Exec E B → Exec E B
m >> k = m >>= λ _. k

abbrev pub raise_result : {E F A : Type 0} → (E → F) → Result E A → Result F A
raise_result f (ok a) = ok a
raise_result f (err e) = err (f e)

-- `if err != nil { …; return }`
abbrev pub or_else : {E F A : Type 0} → Exec E A → (E → F) → Exec F A
or_else m f w = let (r, w') = m w in (raise_result f r, w')

-- a call whose error the code looks at
abbrev pub attempt : {E F A : Type 0} → Exec E A → Exec F (Result E A)
attempt m w = let (r, w') = m w in (ok r, w')

-- `if err := call(); err != nil { … }`, on the result of the call
abbrev pub on_result {ℓ} : {E A : Type 0} {X : Type ℓ} → Result E A → (A → X) → (E → X) → X
on_result (ok a) f g = f a
on_result (err e) f g = g e

-- `_ = call()`
abbrev pub ignore : {E F A : Type 0} → Exec E A → Exec F (Unit {0})
ignore m w = let (r, w') = m w in (ok tt, w')

module _ ⦃env : Env⦄ where
  abbrev pub new_uuid : {E : Type 0} → Exec E String
  new_uuid w = (ok (env.uuid w.tick), next w)

  abbrev pub unix_now : {E : Type 0} → Exec E ℤ
  unix_now w = (ok (env.clock w.tick), next w)

  -- One SQL statement: it runs whole or not at all, unless the driver fails.
  abbrev pub commit : {A : Type 0} → Result Err (A × Db) → World → Result Err A × World
  commit (ok (a, db')) w = (ok a, record w { db = db' })
  commit (err e) w = (err e, w)

  abbrev pub statement : {A : Type 0} → (Db → Result Err (A × Db)) → Exec Err A
  statement run w = elim (env.db_fault w.tick) [
    | none ↦ commit (run w.db) (next w)
    | some text ↦ (err (failure text), next w)
  ]

pub Result-cases :
    {E A : Type 0} (r : Result E A) → ((a : A) × (r ≡ ok a)) ⊎ ((e : E) × (r ≡ err e))
Result-cases (ok a) = inl (a, refl)
Result-cases (err e) = inr (e, refl)
