-- ===== src/Runtime/Exec/Keeps.antt =====
-- What a call keeps true of the tables, by the way the call is built.
use node_panel.Prelude.{Bool, true, false, if◌then◌else◌, ◌≡◌, inl, inr, Option-cases, arith}
use node_panel.Schema.{Db}
use node_panel.Runtime.{Env, World}
use node_panel.Runtime.Exec.{
  Err, Result, ok, err, Exec, return, raise, follow, ◌>>=◌, ◌>>◌, or_else, attempt, ignore,
  new_uuid, unix_now, statement, Result-cases,
}
use node_panel.Store.Table.{query}

module _ (P : Db → Type 0) where
  -- Whichever way the call ends, `P` still holds.
  pub record Keeps {E A : Type 0} (m : Exec E A) : Type 0 where
    pub at : (w : World) → P w.db → P (m w).1.db

  pub record Allows {A : Type 0} (run : Db → Result Err (A × Db)) : Type 0 where
    pub at : (db db' : Db) (a : A) → run db ≡ ok (a, db') → P db → P db'

module _ {P : Db → Type 0} where
  module _ {E A : Type 0} where
    pub Keeps-return : (a : A) → Keeps P (return {E = E} a)
    Keeps-return a = record { at = λ w h. h }

    pub Keeps-raise : (e : E) → Keeps P (raise {A = A} e)
    Keeps-raise e = record { at = λ w h. h }

    pub Keeps-if :
        (b : Bool) (m n : Exec E A) → Keeps P m → Keeps P n → Keeps P (if b then m else n)
    Keeps-if true m n km kn = km
    Keeps-if false m n km kn = kn

  module _ {E A B : Type 0} where
    Keeps-follow :
        (r : Result E A) (f : A → Exec E B) → ((a : A) → Keeps P (f a)) → Keeps P (follow r f)
    Keeps-follow (ok a) f k = record { at = λ w h. (k a).at w h }
    Keeps-follow (err e) f k = record { at = λ w h. h }

    pub Keeps-bind :
        (m : Exec E A) (f : A → Exec E B)
        → Keeps P m
        → ((a : A) → Keeps P (f a))
        → Keeps P (m >>= f)
    Keeps-bind m f km kf = record {
      at = λ w h. let (r, w') = m w in (Keeps-follow r f kf).at w' (km.at w h);
    }

    pub Keeps-then : (m : Exec E A) (k : Exec E B) → Keeps P m → Keeps P k → Keeps P (m >> k)
    Keeps-then m k km kk = Keeps-bind m (λ _. k) km (λ _. kk)

  module _ {E F A : Type 0} where
    pub Keeps-or_else : (m : Exec E A) (f : E → F) → Keeps P m → Keeps P (or_else m f)
    Keeps-or_else m f k = record { at = λ w h. k.at w h }

    pub Keeps-attempt : (m : Exec E A) → Keeps P m → Keeps P (attempt {F = F} m)
    Keeps-attempt m k = record { at = λ w h. k.at w h }

    pub Keeps-ignore : (m : Exec E A) → Keeps P m → Keeps P (ignore {F = F} m)
    Keeps-ignore m k = record { at = λ w h. k.at w h }

  module _ ⦃env : Env⦄ {E : Type 0} where
    pub Keeps-new_uuid : Keeps P (new_uuid {E = E})
    Keeps-new_uuid = record { at = λ w h. h }

    pub Keeps-unix_now : Keeps P (unix_now {E = E})
    Keeps-unix_now = record { at = λ w h. h }

  module _ ⦃env : Env⦄ {A : Type 0} where
    pub Keeps-statement : (run : Db → Result Err (A × Db)) → Allows P run → Keeps P (statement run)
    Keeps-statement run k = record {
      at = λ w h. elim (Option-cases (env.db_fault w.tick)) [
        | inr (text, e) ↦ rw (statement, e) h
        | inl e ↦
            rw (statement, e)
              (elim (Result-cases (run w.db)) [
                | inl ((a, db), q) ↦ rw q (k.at w.db db a q h)
                | inr (x, q) ↦ rw q h
              ])
      ];
    }

    pub Keeps-query : (f : Db → Result Err A) → Keeps P (query f)
    Keeps-query f = record { at = λ w h. ground (arith, h) }

pub ruleset keeps_rules = (
  Keeps-return, Keeps-raise, Keeps-if, Keeps-bind, Keeps-then, Keeps-or_else, Keeps-attempt,
  Keeps-ignore, Keeps-new_uuid, Keeps-unix_now,
)
