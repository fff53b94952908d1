-- ===== src/Api/Catalogue/Sold.antt =====
-- `createPlan` of internal/api/handlers.go: which plans come into the table.
use node_panel.Prelude.{
  String, Option, false, [], ◌∷◌, ◌++◌, ◌≡◌, ◌≢◌, ◌⊎◌, inl, inr, refl, ap, ◌∙◌, arith, Bool-cases,
  Option-cases, any, ◌||◌,
}
use node_panel.Prelude.Int.{ℤ, pos, ◌<ℤ◌, leb_ℤ}
use node_panel.Domain.{Plan}
use node_panel.Runtime.{Env, World}
use node_panel.Runtime.Exec.{Err, ok, err, Result-cases}
use node_panel.Store.Plans.{create_plan, has_id}
use node_panel.Api.Response.{Response, serve}
use node_panel.Api.Nodes.{is_blank}
use node_panel.Api.Catalogue.{CreatePlanRequest, create_plan_handler}

-- A plan that can be sold: a free id, a name, and a positive quota and duration.
pub record Sellable (p : Plan) (w : World) : Type 0 where
  pub fresh : any (has_id p.id) w.db.plans ≡ false
  pub named : is_blank p.name ≡ false
  pub quota : pos 0 <ℤ p.quota_bytes
  pub duration : pos 0 <ℤ p.duration_days

module _ ⦃env : Env⦄ where
  db-create_plan_err :
      (name : String) (q d m : ℤ) (w : World) {e : Err}
      → (create_plan name q d m w).0 ≡ err e
      → (create_plan name q d m w).1.db ≡ w.db
  unfolding create_plan
  db-create_plan_err name q d m w h = ground arith

  db-create_plan_ok :
      (name : String) (q d m : ℤ) (w : World) {p : Plan}
      → (create_plan name q d m w).0 ≡ ok p
      → ((create_plan name q d m w).1.db ≡ record w.db { plans = w.db.plans ++ p ∷ [] })
        × (any (has_id p.id) w.db.plans ≡ false)
        × (p.name ≡ name)
        × (p.quota_bytes ≡ q)
        × (p.duration_days ≡ d)
  unfolding create_plan
  db-create_plan_ok name q d m w h = ground arith

  abbrev pub PlanAdded : World → Response × World → Type 0
  PlanAdded w (r, w') =
      (r.code ≡ 201)
      × (p : Plan) × Sellable p w
      × (w'.db ≡ record w.db { plans = w.db.plans ++ p ∷ [] })

  abbrev pub NoPlan : World → Response × World → Type 0
  NoPlan w (r, w') = (r.code ≢ 201) × (w'.db ≡ w.db)

  -- The creation of a plan either answers 201 and adds one plan with a free id, a name that is not
  -- blank and a positive quota and duration, or answers with an error and no table has changed.
  pub create_plan_handler-Sellable :
      (body : Option CreatePlanRequest) (w : World)
      → PlanAdded w (serve (create_plan_handler body) w)
        ⊎ NoPlan w (serve (create_plan_handler body) w)
  unfolding create_plan_handler
  create_plan_handler-Sellable body w = elim (Option-cases body) [
    | inl e ↦ rw e (inr ((λ p. ground arith), refl))
    | inr (req, e) ↦ rw e (elim (Bool-cases (is_blank req.name)) [
      | inl b ↦ rw b (inr ((λ p. ground arith), refl))
      | inr b ↦
          rw b
            (elim (Bool-cases (leb_ℤ req.quota_bytes (pos 0) || leb_ℤ req.duration_days (pos 0))) [
              | inl c ↦ rw c (inr ((λ p. ground arith), refl))
              | inr c ↦
                  rw c
                    (elim (Result-cases
                      (create_plan req.name req.quota_bytes req.duration_days req.max_users w).0) [
                        | inr (x, h) ↦ rw h (
                            inr (
                              (λ p. ground arith),
                              db-create_plan_err req.name req.quota_bytes req.duration_days
                                  req.max_users w h,
                            ))
                        | inl (p, h) ↦ rw h (
                            let (added, fresh, name, quota, days) =
                              db-create_plan_ok req.name req.quota_bytes req.duration_days
                                req.max_users w h in
                            inl (
                              refl,
                              p,
                              record {
                                fresh = fresh;
                                named = ap is_blank name ∙ b;
                                quota = ground (arith, quota, c);
                                duration = ground (arith, days, c);
                              },
                              added,
                            ))
                      ])
            ])
    ])
  ]
