-- ===== src/Store/Keyed.antt =====
-- Lookups by key in a table, and INSERT, DELETE and UPDATE by key seen through them.
use node_panel.Prelude.{
  String, Option, none, some, List, [], ◌∷◌, ◌++◌, true, false, not, ◌≡◌, ◌==◌, refl, ap, sym, ◌∙◌,
  inl, inr, any, find?, select, update, arith, Bool-cases, eq_iff, if◌then◌else◌,
}

module _ {A : Type 0} (key : A → String) where
  abbrev pub at_key : String → List A → Option A
  at_key k xs = find? (λ x. key x == k) xs

  abbrev pub changed : (A → A) → Option A → Option A
  changed f none = none
  changed f (some x) = some (f x)

  pub at_key-none :
      (k : String) (xs : List A) → any (λ x. key x == k) xs ≡ false → at_key k xs ≡ none
  at_key-none k [] h = refl
  at_key-none k (x ∷ xs) h = ground (arith, h, at_key-none k xs)

  pub at_key-some :
      (k : String) (xs : List A)
      → any (λ x. key x == k) xs ≡ true
      → (x : A) × (at_key k xs ≡ some x)
  at_key-some k [] h = absurd (ground arith)
  at_key-some k (x ∷ xs) h = elim (Bool-cases (key x == k)) [
    | inl e ↦ (x, rw e refl)
    | inr e ↦ rw e (at_key-some k xs (ground (arith, h, e)))
  ]

  pub at_key-append :
      (k : String) (xs : List A) (r : A)
      → any (λ x. key x == key r) xs ≡ false
      → at_key k (xs ++ r ∷ []) ≡ (if key r == k then some r else at_key k xs)
  at_key-append k [] r h = refl
  at_key-append k (x ∷ xs) r h = elim (Bool-cases (key x == k)) [
    | inr e ↦ rw e (at_key-append k xs r (ground (arith, h)))
    | inl e ↦ elim (Bool-cases (key r == k)) [
      | inr d ↦ rw (e, d) refl
      | inl d ↦
          let same : key x ≡ key r = (eq_iff (key x) k).0 e ∙ sym ((eq_iff (key r) k).0 d) in
          absurd (ground (arith, h, (eq_iff (key x) (key r)).1 same))
    ]
  ]

  pub at_key-select :
      (k id : String) (xs : List A)
      → at_key k (select (λ x. not (key x == id)) xs) ≡ (if id == k then none else at_key k xs)
  at_key-select k id [] = ground arith
  at_key-select k id (x ∷ xs) = elim (Bool-cases (key x == id)) [
    | inl e ↦ elim (Bool-cases (id == k)) [
      | inl d ↦ rw (e, d) (at_key-select k id xs ∙ rw d refl)
      | inr d ↦
          let other : (key x == k) ≡ false = ap (λ s. s == k) ((eq_iff (key x) id).0 e) ∙ d in
          rw (e, d, other) (at_key-select k id xs ∙ rw d refl)
    ]
    | inr e ↦ elim (Bool-cases (key x == k)) [
      | inl d ↦
          let other : (id == k) ≡ false =
            ground (arith, e, d, eq_iff (key x) k, eq_iff id k, eq_iff (key x) id) in
          rw e (rw (d, other) refl)
      | inr d ↦ rw e (rw d (at_key-select k id xs))
    ]
  ]

  pub at_key-update :
      (k id : String) (f : A → A) (xs : List A)
      → ((x : A) → key (f x) ≡ key x)
      → at_key k (update (λ x. key x == id) f xs)
        ≡ (if id == k then changed f (at_key k xs) else at_key k xs)
  at_key-update k id f [] same = ground arith
  at_key-update k id f (x ∷ xs) same = elim (Bool-cases (key x == k)) [
    | inl d ↦ elim (Bool-cases (key x == id)) [
      | inl e ↦
          let hit : (id == k) ≡ true = ap (λ s. s == k) (sym ((eq_iff (key x) id).0 e)) ∙ d in
          rw e (rw (same x, d, hit) refl)
      | inr e ↦
          let other : (id == k) ≡ false =
            ground (arith, e, d, eq_iff (key x) k, eq_iff id k, eq_iff (key x) id) in
          rw e (rw (d, other) refl)
    ]
    | inr d ↦ elim (Bool-cases (key x == id)) [
      | inl e ↦ rw e (rw (same x, d) (at_key-update k id f xs same))
      | inr e ↦ rw e (rw d (at_key-update k id f xs same))
    ]
  ]
