-- ===== src/Runtime/Exec/Ends.antt =====
-- How a call ended, read off its result.
use node_panel.Prelude.{ℕ, none, ◌≡◌, refl, inl, inr, arith, Option-cases}
use node_panel.Schema.{Db}
use node_panel.Runtime.{Env, World}
use node_panel.Runtime.Exec.{Err, Result, ok, Exec, ◌>>=◌, statement, Result-cases}

-- A chain that succeeds has succeeded in its first call and in the rest, which ran after it.
pub bind-ok :
    {E A B : Type 0} (m : Exec E A) (f : A → Exec E B) (w : World) {b : B}
    → ((m >>= f) w).0 ≡ ok b
    → (a : A) × ((m w).0 ≡ ok a) × ((f a (m w).1).0 ≡ ok b) × (((m >>= f) w).1 ≡ (f a (m w).1).1)
bind-ok m f w = elim (Result-cases (m w).0) [
  | inl (a, h) ↦ rw h (λ k. (a, refl, k, refl))
  | inr (e, h) ↦ rw h (λ k. absurd (ground arith))
]

module _ ⦃env : Env⦄ where
  -- The driver never fails.
  pub record Answers : Type 0 where
    pub clear : (t : ℕ) → env.db_fault t ≡ none

  pub statement-ok :
      {A : Type 0} (run : Db → Result Err (A × Db)) (w : World) {a : A}
      → (statement run w).0 ≡ ok a
      → run w.db ≡ ok (a, (statement run w).1.db)
  statement-ok run w = elim (Option-cases (env.db_fault w.tick)) [
    | inl e ↦
        rw (statement, e)
          (elim (Result-cases (run w.db)) [
            | inl ((a, db), k) ↦ rw k (λ h. ground (arith, h))
            | inr (x, k) ↦ rw k (λ h. absurd (ground arith))
          ])
    | inr (text, e) ↦ rw (statement, e) (λ h. absurd (ground arith))
  ]
