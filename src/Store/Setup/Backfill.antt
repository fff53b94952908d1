-- ===== src/Store/Setup/Backfill.antt =====
-- The end of `migrate` of internal/store/store.go: every subscription gets a token for its page.
use node_panel.Prelude.{
  ℕ, String, none, List, [], ◌∷◌, ◌≡◌, inl, inr, Bool, true, false, ◌==◌, refl, ap, sym, ◌∙◌, arith,
  map, select, any, update, All, map-update, Bool-cases, eq_iff, eq_refl, subst,
}
use node_panel.Prelude.Text.{is_empty}
use node_panel.Schema.{Db, SubscriptionRow}
use node_panel.Runtime.{Env, World, next}
use node_panel.Runtime.Exec.{Err, Result, ok, statement, ◌>>=◌}
use node_panel.Runtime.Exec.Ends.{bind-ok, statement-ok}
use node_panel.Store.Table.{query}
use node_panel.Store.Subscriptions.{new_sub_token, has_id, strip_dashes}
use node_panel.Store.Setup.{
  backfill_all, backfill_tokens, read_rows, rows_before, set_token, lacks_token, replace_token,
}

abbrev listed : List SubscriptionRow → SubscriptionRow → Bool
listed rs r = any (λ x. has_id x.id r) rs

-- Every row without a token is still on the list.
abbrev Covered : List SubscriptionRow → List SubscriptionRow → Type 0
Covered rs rows = All (λ r. lacks_token r ≡ true → listed rs r ≡ true) rows

abbrev pub without_token : SubscriptionRow → SubscriptionRow
without_token r = record r { sub_token = none }

Covered-update :
    (token : String) (x : SubscriptionRow) (rs rows : List SubscriptionRow)
    → is_empty token ≡ false
    → Covered (x ∷ rs) rows
    → Covered rs (update (has_id x.id) (replace_token token) rows)
Covered-update token x rs [] nonempty h = tt
Covered-update token x rs (r ∷ rows) nonempty h = elim (Bool-cases (has_id x.id r)) [
  | inl e ↦ rw e (
    λ empty. absurd (ground (arith, empty, nonempty)),
    Covered-update token x rs rows nonempty h.1,
  )
  | inr e ↦ rw e (λ lacks. rw e at (h.0 lacks), Covered-update token x rs rows nonempty h.1)
]

-- An update of another id passes a row by.
select-update :
    (token i id : String) (rows : List SubscriptionRow)
    → (i == id) ≡ false
    → select (has_id id) (update (has_id i) (replace_token token) rows) ≡ select (has_id id) rows
select-update token i id [] other = refl
select-update token i id (r ∷ rows) other = elim (Bool-cases (has_id i r)) [
  | inl e ↦
      let same = (eq_iff r.id i).0 e in rw (e, same, other) (select-update token i id rows other)
  | inr e ↦ rw e (elim (Bool-cases (has_id id r)) [
    | inl k ↦ rw k (ap (λ rs. r ∷ rs) (select-update token i id rows other))
    | inr k ↦ rw k (select-update token i id rows other)
  ])
]

Covered-cons :
    (x : SubscriptionRow) (rs rows : List SubscriptionRow) → Covered rs rows → Covered (x ∷ rs) rows
Covered-cons x rs [] h = tt
Covered-cons x rs (r ∷ rows) h = (λ lacks. ground (arith, h.0 lacks), Covered-cons x rs rows h.1)

Covered-select : (rows : List SubscriptionRow) → Covered (select lacks_token rows) rows
Covered-select [] = tt
Covered-select (r ∷ rows) = elim (Bool-cases (lacks_token r)) [
  | inl e ↦
      let found : select lacks_token (r ∷ rows) ≡ r ∷ select lacks_token rows = rw e refl in
      subst (λ rs. Covered rs (r ∷ rows)) (sym found)
        (
          λ _. rw (eq_refl r.id) refl,
          Covered-cons r (select lacks_token rows) rows (Covered-select rows),
        )
  | inr e ↦
      let passed : select lacks_token (r ∷ rows) ≡ select lacks_token rows = rw e refl in
      subst (λ rs. Covered rs (r ∷ rows)) (sym passed)
        (λ h. absurd (ground (arith, e, h)), Covered-select rows)
]

Covered-nil :
    (rows : List SubscriptionRow) → Covered [] rows → All (λ r. lacks_token r ≡ false) rows
Covered-nil [] h = tt
Covered-nil (r ∷ rows) h = elim (Bool-cases (lacks_token r)) [
  | inl e ↦ absurd (ground (arith, h.0 e))
  | inr e ↦ (e, Covered-nil rows h.1)
]

abbrev pub without_subscriptions : Db → Db
without_subscriptions db = record db { subscriptions = [] }

-- Only tokens differ, and only those of the ids on the list.
pub record OnlyTokens (rs : List SubscriptionRow) (db db' : Db) : Type 0 where
  pub others : without_subscriptions db' ≡ without_subscriptions db
  pub rows : map without_token db'.subscriptions ≡ map without_token db.subscriptions
  pub kept :
      (id : String)
      → any (λ x. x.id == id) rs ≡ false
      → select (has_id id) db'.subscriptions ≡ select (has_id id) db.subscriptions

OnlyTokens-nil : (db : Db) → OnlyTokens [] db db
OnlyTokens-nil db = record { others = refl; rows = refl; kept = λ id h. refl }

module _ ⦃env : Env⦄ where
  abbrev given : SubscriptionRow → World → Db
  given r w = record w.db {
    subscriptions =
        update (has_id r.id) (replace_token (strip_dashes (env.uuid w.tick))) w.db.subscriptions;
  }

  -- A round of the loop that succeeds has given a token to one id.
  abbrev Round : SubscriptionRow → List SubscriptionRow → World → Type 0
  Round r rs w =
      (w' : World) × (w'.db ≡ given r w)
      × ((backfill_all rs w').0 ≡ ok tt)
      × ((backfill_all (r ∷ rs) w).1 ≡ (backfill_all rs w').1)

  Round-ok :
      (r : SubscriptionRow) (rs : List SubscriptionRow) (w : World)
      → (backfill_all (r ∷ rs) w).0 ≡ ok tt
      → Round r rs w
  unfolding backfill_all new_sub_token set_token
  Round-ok r rs w h =
      let token = strip_dashes (env.uuid w.tick) in
      let run = set_token token r.id in
      let (done, ran, rest, ends) = bind-ok (statement run) (λ _. backfill_all rs) (next w) h in
      (_, ground (arith, statement-ok run (next w) ran), rest, ends)

  given-OnlyTokens :
      (r : SubscriptionRow) (rs : List SubscriptionRow) (w : World) (db : Db)
      → OnlyTokens rs (given r w) db
      → OnlyTokens (r ∷ rs) w.db db
  given-OnlyTokens r rs w db o =
      let token = strip_dashes (env.uuid w.tick) in
      record {
        others = o.others;
        rows =
            o.rows
            ∙ map-update (has_id r.id) (replace_token token) without_token w.db.subscriptions
                (λ x. refl);
        kept = λ id h.
            o.kept id (ground (arith, h))
            ∙ select-update token r.id id w.db.subscriptions (ground (arith, h));
      }

  -- A uuid is more than dashes.
  pub record Uuids : Type 0 where
    pub nonempty : (t : ℕ) → is_empty (strip_dashes (env.uuid t)) ≡ false

  -- No reading of rows breaks off.
  pub record WholeRows : Type 0 where
    pub unbroken : (t : ℕ) → env.rows_broken t ≡ none

  backfill_all-ok :
      (rs : List SubscriptionRow) (w : World)
      → Uuids
      → Covered rs w.db.subscriptions
      → (backfill_all rs w).0 ≡ ok tt
      → All (λ r. lacks_token r ≡ false) (backfill_all rs w).1.db.subscriptions
        × OnlyTokens rs w.db (backfill_all rs w).1.db
  backfill_all-ok [] w u c h =
      unfold backfill_all in (Covered-nil w.db.subscriptions c, OnlyTokens-nil w.db)
  backfill_all-ok (r ∷ rs) w u c h =
      let (w', db, rest, ends) = Round-ok r rs w h in
      let token = strip_dashes (env.uuid w.tick) in
      let next_cover = Covered-update token r rs w.db.subscriptions (u.nonempty w.tick) c in
      let (all, only) =
        backfill_all-ok rs w' u (subst (λ d. Covered rs d.subscriptions) (sym db) next_cover)
          rest in
      rw ends (
        all,
        given-OnlyTokens r rs w _ (subst (λ d. OnlyTokens rs d (backfill_all rs w').1.db) db only),
      )

  abbrev untokened : Db → Result Err (List SubscriptionRow)
  untokened db = ok (select lacks_token db.subscriptions)

  untokened-ok :
      (w : World) {rs : List SubscriptionRow}
      → (query untokened w).0 ≡ ok rs
      → (rs ≡ select lacks_token w.db.subscriptions) × ((query untokened w).1 ≡ next w)
  untokened-ok w h = ground arith

  abbrev pub Backfilled : Db → Db → Type 0
  Backfilled db db' =
      All (λ r. lacks_token r ≡ false) db'.subscriptions
      × OnlyTokens (select lacks_token db.subscriptions) db db'

  -- Once the tokens are filled in, and unless the reading of the rows has broken off, no
  -- subscription is without one, and a subscription that had one
  -- keeps it; nothing else has changed.
  pub backfill_tokens-ok :
      (w : World)
      → Uuids
      → WholeRows
      → (backfill_tokens w).0 ≡ ok tt
      → Backfilled w.db (backfill_tokens w).1.db
  unfolding backfill_tokens
  backfill_tokens-ok w u whole h =
      let (rs, asked, rest, ends) =
        bind-ok (query untokened) (λ rows. read_rows rows >>= backfill_all) w h in
      let (same, after) = untokened-ok w asked in
      let sel = select lacks_token w.db.subscriptions in
      let all_read : rows_before (env.rows_broken (next w).tick) rs ≡ rs =
        rw (whole.unbroken (next w).tick) refl in
      let move : (read_rows rs >>= backfill_all) (query untokened w).1
          ≡ backfill_all sel (next (next w)) =
        ap (read_rows rs >>= backfill_all) after
        ∙ ap (λ l. backfill_all l (next (next w))) (all_read ∙ same) in
      let done =
        backfill_all-ok sel (next (next w)) u (Covered-select w.db.subscriptions)
          (subst (λ x. x.0 ≡ ok tt) move rest) in
      subst (λ x. Backfilled w.db x.db) (sym (ends ∙ ap (λ x. x.1) move)) done
