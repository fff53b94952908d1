-- ===== src/Prelude/Lists.antt =====
-- Lists as database tables and channels: lookup, deletion and update by a Boolean test.
use Prim.Native.Nat.{ℕ, suc, ◌+◌}
use mathlib.Core.Path.{◌≡◌, ◌∙◌, refl, ap, sym, subst}
use mathlib.Core.Logic.{◌≢◌, inl, inr}
use mathlib.Core.Bool.{Bool, true, false, not}
use mathlib.Core.Option.{Option, none, some, some-injective, some-ne-none}
use mathlib.Core.List.{List, [], ◌∷◌, ◌++◌, map}
use native.Mathlib.Omega.{arith}
use node_panel.Prelude.Tests.{Bool-cases, if◌then◌else◌}

module _ {ℓ} {A : Type ℓ} where
  abbrev pub length : List A → ℕ
  length [] = 0
  length (x ∷ xs) = suc (length xs)

  -- the rows that pass a test, in order
  abbrev pub select : (A → Bool) → List A → List A
  select p [] = []
  select p (x ∷ xs) = let rest = select p xs in if p x then x ∷ rest else rest

  -- the first row that passes a test
  abbrev pub find? : (A → Bool) → List A → Option A
  find? p [] = none
  find? p (x ∷ xs) = if p x then some x else find? p xs

  -- every row that passes the test is changed, the others stay
  abbrev pub update : (A → Bool) → (A → A) → List A → List A
  update p f [] = []
  update p f (x ∷ xs) = (if p x then f x else x) ∷ update p f xs

  abbrev pub count : (A → Bool) → List A → ℕ
  count p xs = length (select p xs)

  abbrev pub any : (A → Bool) → List A → Bool
  any p [] = false
  any p (x ∷ xs) = if p x then true else any p xs

  abbrev pub All {κ} : (A → Type κ) → List A → Type κ
  All P [] = Unit
  All P (x ∷ xs) = P x × All P xs

  pub length-append : (xs ys : List A) → length (xs ++ ys) ≡ length xs + length ys
  length-append [] ys = omega arith
  length-append (x ∷ xs) ys = omega (arith, length-append xs ys)

  pub All-append {κ} : (P : A → Type κ) (xs ys : List A) → All P xs → All P ys → All P (xs ++ ys)
  All-append P [] ys hx hy = hy
  All-append P (x ∷ xs) ys hx hy = (hx.0, All-append P xs ys hx.1 hy)

  pub All-map {κ κ'} :
      (P : A → Type κ) (Q : A → Type κ') (f : (a : A) → P a → Q a) (xs : List A)
      → All P xs
      → All Q xs
  All-map P Q f [] h = tt
  All-map P Q f (x ∷ xs) h = (f x h.0, All-map P Q f xs h.1)

  -- Where no row passes the test, deleting those that do changes nothing.
  pub select-not_of_count :
      (p : A → Bool) (xs : List A) → count p xs ≡ 0 → select (λ x. not (p x)) xs ≡ xs
  select-not_of_count p [] h = refl
  select-not_of_count p (x ∷ xs) h = ground (arith, select-not_of_count p xs)

  pub count-of_any : (p : A → Bool) (xs : List A) → any p xs ≡ true → count p xs ≢ 0
  count-of_any p [] h = ground arith
  count-of_any p (x ∷ xs) h = ground (arith, count-of_any p xs)

  pub count-of_not_any : (p : A → Bool) (xs : List A) → any p xs ≡ false → count p xs ≡ 0
  count-of_not_any p [] h = refl
  count-of_not_any p (x ∷ xs) h = ground (arith, count-of_not_any p xs)

  pub count-of_find : (p : A → Bool) (xs : List A) (x : A) → find? p xs ≡ some x → count p xs ≢ 0
  count-of_find p [] x h = ground arith
  count-of_find p (y ∷ xs) x h = ground (arith, count-of_find p xs x)

  -- Two updates of the same rows are one.
  pub update-update :
      (p : A → Bool) (f g : A → A) (xs : List A)
      → ((x : A) → p (f x) ≡ p x)
      → update p g (update p f xs) ≡ update p (λ x. g (f x)) xs
  update-update p f g [] same = refl
  update-update p f g (x ∷ xs) same = ground (arith, same x, update-update p f g xs same)

  pub update-cong :
      (p : A → Bool) (f g : A → A) (xs : List A)
      → All (λ x. p x ≡ true → f x ≡ g x) xs
      → update p f xs ≡ update p g xs
  update-cong p f g [] h = refl
  update-cong p f g (x ∷ xs) h = ground (arith, h.0, update-cong p f g xs h.1)

  pub update_same : (p : A → Bool) (xs : List A) → update p (λ x. x) xs ≡ xs
  update_same p [] = refl
  update_same p (x ∷ xs) = ground (arith, update_same p xs)

  pub find-update :
      (p : A → Bool) (f : A → A) (xs : List A)
      → ((y : A) → p (f y) ≡ p y)
      → (x : A) → find? p xs ≡ some x
      → find? p (update p f xs) ≡ some (f x)
  find-update p f [] same x h = ground arith
  find-update p f (y ∷ ys) same x h = ground (arith, same y, find-update p f ys same x)

  pub find-image :
      (p : A → Bool) (f : A → A) (xs : List A)
      → ((y : A) → p (f y) ≡ p y)
      → (z : A) → find? p (update p f xs) ≡ some z
      → (x : A) × (z ≡ f x)
  find-image p f [] same z = λ h. absurd (some-ne-none z (sym h))
  find-image p f (y ∷ ys) same z = elim (Bool-cases (p y)) [
    | inl e ↦ rw e (rw (same y, e) (λ h. (y, sym (some-injective (f y) z h))))
    | inr e ↦ rw e (rw e (find-image p f ys same z))
  ]

  -- a row that passes behind rows that do not
  pub find-append :
      (p : A → Bool) (xs : List A) (x : A)
      → any p xs ≡ false
      → p x ≡ true
      → find? p (xs ++ x ∷ []) ≡ some x
  find-append p [] x others passes = rw passes refl
  find-append p (y ∷ ys) x others passes = ground (arith, others, find-append p ys x, passes)

  pub find_passes : (p : A → Bool) (xs : List A) (x : A) → find? p xs ≡ some x → p x ≡ true
  find_passes p [] x h = ground arith
  find_passes p (y ∷ ys) x h = ground (arith, find_passes p ys x)

  pub All-find {κ} :
      (P : A → Type κ) (p : A → Bool) (xs : List A) (x : A) → All P xs → find? p xs ≡ some x → P x
  All-find P p [] x all = λ h. absurd (some-ne-none x (sym h))
  All-find P p (y ∷ ys) x all = elim (Bool-cases (p y)) [
    | inl e ↦ rw e (λ h. subst P (some-injective y x h) all.0)
    | inr e ↦ rw e (All-find P p ys x all.1)
  ]

  pub append_nil : (xs : List A) → xs ++ [] ≡ xs
  append_nil [] = refl
  append_nil (x ∷ xs) = ap (λ ys. x ∷ ys) (append_nil xs)

  pub append_assoc : (xs ys zs : List A) → (xs ++ ys) ++ zs ≡ xs ++ (ys ++ zs)
  append_assoc [] ys zs = refl
  append_assoc (x ∷ xs) ys zs = ap (λ l. x ∷ l) (append_assoc xs ys zs)

  -- A row that was not there is gone again after its deletion.
  pub select-append_new :
      (p : A → Bool) (rows : List A) (r : A)
      → any p rows ≡ false
      → p r ≡ true
      → select (λ x. not (p x)) (rows ++ r ∷ []) ≡ rows
  select-append_new p [] r fresh same = ground arith
  select-append_new p (x ∷ rows) r fresh same = ground (arith, select-append_new p rows r)

  -- What an update leaves alone in each row it leaves alone in the table.
  pub map-update {κ} :
      {B : Type κ} (p : A → Bool) (f : A → A) (g : A → B) (xs : List A)
      → ((x : A) → g (f x) ≡ g x)
      → map g (update p f xs) ≡ map g xs
  map-update p f g [] same = refl
  map-update p f g (x ∷ xs) same = elim (Bool-cases (p x)) [
    | inl e ↦ rw e (
        ap (λ y. y ∷ map g (update p f xs)) (same x)
        ∙ ap (λ ys. g x ∷ ys) (map-update p f g xs same))
    | inr e ↦ rw e (ap (λ ys. g x ∷ ys) (map-update p f g xs same))
  ]

  pub All-select : (p : A → Bool) (xs : List A) → All (λ x. p x ≡ true) (select p xs)
  All-select p [] = tt
  All-select p (x ∷ xs) = elim (Bool-cases (p x)) [
    | inl e ↦ rw e (e, All-select p xs)
    | inr e ↦ rw e (All-select p xs)
  ]

  pub select-select : (p : A → Bool) (xs : List A) → select p (select p xs) ≡ select p xs
  select-select p [] = refl
  select-select p (x ∷ xs) = elim (Bool-cases (p x)) [
    | inl e ↦ rw e (rw e (ap (λ ys. x ∷ ys) (select-select p xs)))
    | inr e ↦ rw e (select-select p xs)
  ]

  pub map-map {κ} :
      {B : Type κ} (f : A → A) (g : A → B) (xs : List A)
      → ((x : A) → g (f x) ≡ g x)
      → map g (map f xs) ≡ map g xs
  map-map f g [] same = refl
  map-map f g (x ∷ xs) same =
      ap (λ y. y ∷ map g (map f xs)) (same x) ∙ ap (λ ys. g x ∷ ys) (map-map f g xs same)

  pub any-append : (p : A → Bool) (xs : List A) (y : A) → p y ≡ true → any p (xs ++ y ∷ []) ≡ true
  any-append p [] y h = rw h refl
  any-append p (x ∷ xs) y h = ground (arith, any-append p xs y h)

  pub any-grows :
      (p : A → Bool) (xs : List A) (y : A) → any p xs ≡ true → any p (xs ++ y ∷ []) ≡ true
  any-grows p [] y h = absurd (ground (arith, h))
  any-grows p (x ∷ xs) y h = ground (arith, any-grows p xs y)
