-- ===== src/Store/Intact/Keys.antt =====
-- Unique keys and references under the changes of a table.
use node_panel.Prelude.{
  String, Option, none, some, List, [], ◌∷◌, ◌++◌, Bool, true, false, not, ◌≡◌, ◌==◌, refl, ap, ◌∙◌,
  inl, inr, any, All, select, update, arith, Bool-cases, eq_iff, eq_refl, any-grows,
}
use node_panel.Store.Table.{references, holds}
use node_panel.Store.Intact.{Unique}

eq_comm : (a b : String) → (a == b) ≡ false → (b == a) ≡ false
eq_comm a b h = elim (Bool-cases (b == a)) [
  | inl e ↦ absurd (ground (arith, h, e, eq_iff b a, eq_refl b))
  | inr e ↦ e
]

module _ {ℓ} {A : Type ℓ} (key : A → String) where
  any-append_none :
      (k : String) (xs : List A) (r : A)
      → any (λ y. key y == k) xs ≡ false
      → (key r == k) ≡ false
      → any (λ y. key y == k) (xs ++ r ∷ []) ≡ false
  any-append_none k [] r h e = rw e refl
  any-append_none k (x ∷ xs) r h e = ground (arith, any-append_none k xs r, h, e)

  pub Unique-append :
      (xs : List A) (r : A)
      → Unique key xs
      → any (λ y. key y == key r) xs ≡ false
      → Unique key (xs ++ r ∷ [])
  Unique-append [] r u fresh = (refl, tt)
  Unique-append (x ∷ xs) r u fresh = elim (Bool-cases (key x == key r)) [
    | inl e ↦ absurd (ground (arith, e, fresh))
    | inr e ↦ (
      any-append_none (key x) xs r u.0 (eq_comm (key x) (key r) e),
      Unique-append xs r u.1 (ground (arith, e, fresh)),
    )
  ]

  any-select_none : (p q : A → Bool) (xs : List A) → any p xs ≡ false → any p (select q xs) ≡ false
  any-select_none p q [] h = refl
  any-select_none p q (x ∷ xs) h = ground (arith, any-select_none p q xs, h)

  pub Unique-select : (q : A → Bool) (xs : List A) → Unique key xs → Unique key (select q xs)
  Unique-select q [] u = tt
  Unique-select q (x ∷ xs) u = elim (Bool-cases (q x)) [
    | inl e ↦ rw e (any-select_none (λ y. key y == key x) q xs u.0, Unique-select q xs u.1)
    | inr e ↦ rw e (Unique-select q xs u.1)
  ]

  pub any-update :
      (p q : A → Bool) (f : A → A) (xs : List A)
      → ((x : A) → p (f x) ≡ p x)
      → any p (update q f xs) ≡ any p xs
  any-update p q f [] same = refl
  any-update p q f (x ∷ xs) same = ground (arith, same x, any-update p q f xs same)

  pub Unique-update :
      (q : A → Bool) (f : A → A) (xs : List A)
      → ((x : A) → key (f x) ≡ key x)
      → Unique key xs
      → Unique key (update q f xs)
  Unique-update q f [] same u = tt
  Unique-update q f (x ∷ xs) same u = elim (Bool-cases (q x)) [
    | inl e ↦
        rw (e, same x)
          (
            any-update (λ y. key y == key x) q f xs (λ y. rw (same y) refl) ∙ u.0,
            Unique-update q f xs same u.1,
          )
    | inr e ↦ rw e (
      any-update (λ y. key y == key x) q f xs (λ y. rw (same y) refl) ∙ u.0,
      Unique-update q f xs same u.1,
    )
  ]

  -- references

  pub references-append :
      (xs : List A) (r : A) (o : Option String)
      → references key xs o ≡ true
      → references key (xs ++ r ∷ []) o ≡ true
  references-append xs r none h = refl
  references-append xs r (some k) h = any-grows (λ x. key x == k) xs r h

  pub references-update :
      (q : A → Bool) (f : A → A) (xs : List A) (o : Option String)
      → ((x : A) → key (f x) ≡ key x)
      → references key xs o ≡ true
      → references key (update q f xs) o ≡ true
  references-update q f xs none same h = refl
  references-update q f xs (some k) same h =
      any-update (λ x. key x == k) q f xs (λ x. rw (same x) refl) ∙ h

  any-select_other :
      (k id : String) (xs : List A)
      → (k == id) ≡ false
      → any (λ x. key x == k) xs ≡ true
      → any (λ x. key x == k) (select (λ x. not (key x == id)) xs) ≡ true
  any-select_other k id [] other h = h
  any-select_other k id (x ∷ xs) other h = elim (Bool-cases (key x == k)) [
    | inl e ↦
        let same = (eq_iff (key x) k).0 e in
        let kept : (key x == id) ≡ false = ap (λ s. s == id) same ∙ other in rw kept (rw e refl)
    | inr e ↦ ground (arith, e, h, any-select_other k id xs other)
  ]

  -- The rows of another key stay.
  pub references-select :
      (id : String) (xs : List A) (o : Option String)
      → holds id o ≡ false
      → references key xs o ≡ true
      → references key (select (λ x. not (key x == id)) xs) o ≡ true
  references-select id xs none other h = refl
  references-select id xs (some k) other h = any-select_other k id xs other h

module _ {ℓ} {A : Type ℓ} where
  pub All-update {κ} :
      (P : A → Type κ) (q : A → Bool) (f : A → A) (xs : List A)
      → ((x : A) → P x → P (f x))
      → All P xs
      → All P (update q f xs)
  All-update P q f [] step h = tt
  All-update P q f (x ∷ xs) step h = elim (Bool-cases (q x)) [
    | inl e ↦ rw e (step x h.0, All-update P q f xs step h.1)
    | inr e ↦ rw e (h.0, All-update P q f xs step h.1)
  ]

  pub All-kept {κ} : (P : A → Type κ) (q : A → Bool) (xs : List A) → All P xs → All P (select q xs)
  All-kept P q [] h = tt
  All-kept P q (x ∷ xs) h = elim (Bool-cases (q x)) [
    | inl e ↦ rw e (h.0, All-kept P q xs h.1)
    | inr e ↦ rw e (All-kept P q xs h.1)
  ]

  -- what holds of the rows that a test selects
  pub All-selected {κ} :
      (P Q : A → Type κ) (q : A → Bool) (xs : List A)
      → ((x : A) → q x ≡ true → P x → Q x)
      → All P xs
      → All Q (select q xs)
  All-selected P Q q [] step h = tt
  All-selected P Q q (x ∷ xs) step h = elim (Bool-cases (q x)) [
    | inl e ↦ rw e (step x e h.0, All-selected P Q q xs step h.1)
    | inr e ↦ rw e (All-selected P Q q xs step h.1)
  ]

  -- what holds of every row when no row passes a test
  pub All-none {κ} :
      (P Q : A → Type κ) (q : A → Bool) (xs : List A)
      → ((x : A) → q x ≡ false → P x → Q x)
      → any q xs ≡ false
      → All P xs
      → All Q xs
  All-none P Q q [] step none_passes h = tt
  All-none P Q q (x ∷ xs) step none_passes h = elim (Bool-cases (q x)) [
    | inl e ↦ absurd (ground (arith, e, none_passes))
    | inr e ↦ (step x e h.0, All-none P Q q xs step (ground (arith, e, none_passes)) h.1)
  ]
