-- ===== src/Api/Page/Units.antt =====
-- What `humanBytes` and the percentage of internal/api/subpage.go come to.
use native.Mathlib.Nat.{div-le_of_le-mul}
use node_panel.Prelude.{
  ℕ, zero, suc, ◌+◌, ◌*◌, ◌/◌, ◌^◌, ◌≤◌, ◌<◌, ◌≡◌, ◌⊎◌, inl, inr, refl, String, arith, ltb, eqb,
  true, false, Bool-cases,
}
use node_panel.Prelude.Int.{ℤ, pos, ◌≤ℤ◌, leb_ℤ, mul64, div64}
use node_panel.Prelude.Int.Percent.{percent, percent_wraps}
use node_panel.Prelude.Text.{◌<>◌, decimal}
use node_panel.Prelude.Float.{float64}
use node_panel.Prelude.Float.Rounding.{Nearest, Near, round_half_even-Nearest, float64-Near}
use node_panel.Api.Page.{
  unit_from, unit_of, pct_of, human_bytes, tenths, tenths_of, unit_letter, at_most_100,
}

-- The unit found is at most the last, is reached by the number, and the next one is not, unless
-- it is the last.
abbrev Fits : ℕ → ℕ → ℕ → Type 0
Fits last f i = (i ≤ last) × (1024 ^ i ≤ f) × ((i ≡ last) ⊎ (f < 1024 ^ (i + 1)))

unit_from-Fits :
    (left i last f : ℕ) → i + left ≡ last → 1024 ^ i ≤ f → Fits last f (unit_from left i f)
unfolding unit_from
unit_from-Fits zero i last f e h = (omega arith, h, inl (omega arith))
unit_from-Fits (suc left) i last f e h = elim (Bool-cases (ltb f (1024 ^ (i + 1)))) [
  | inl t ↦ rw t (omega arith, h, inr (ground (arith, t)))
  | inr t ↦ rw t (unit_from-Fits left (i + 1) last f (omega arith) (ground (arith, t)))
]

unit_of-Fits : (n : ℕ) → 1 ≤ float64 n → Fits 4 (float64 n) (unit_of n)
unfolding unit_of
unit_of-Fits n h = unit_from-Fits 4 0 4 (float64 n) (omega arith) (omega arith)

-- the whole number of bytes, or the nearest tenth of the unit
abbrev pub Written : ℕ → ℕ → ℕ → String → Type 0
Written n f i s =
    ((i ≡ 0) × (s ≡ decimal n <> " B"))
    ⊎ ((t : ℕ) × Nearest (10 * f) (1024 ^ i) t × (s ≡ tenths t <> " " <> unit_letter i <> "B"))

pub record Shown (n : ℕ) (s : String) : Type 0 where
  pub double : ℕ
  pub near : Near n double
  pub unit : ℕ
  pub fits : Fits 4 double unit
  pub written : Written n double unit s

power_pos : (i : ℕ) → 0 < 1024 ^ i
power_pos zero = omega arith
power_pos (suc i) = omega (arith, power_pos i)

eqb→eq : (a b : ℕ) → eqb a b ≡ true → a ≡ b
eqb→eq a b h = ground (arith, h)

written : (n : ℕ) → 0 < n → Written n (float64 n) (unit_of n) (human_bytes (pos n))
unfolding human_bytes
written n h =
    let positive : leb_ℤ (pos n) (pos 0) ≡ false = ground (arith, h) in
    elim (Bool-cases (eqb (unit_of n) 0)) [
      | inl e ↦ rw (positive, e) (inl (eqb→eq (unit_of n) 0 e, refl))
      | inr e ↦
          rw (positive, e)
            (inr (
              tenths_of n (unit_of n),
              round_half_even-Nearest (10 * float64 n) (1024 ^ unit_of n) (power_pos (unit_of n)),
              refl,
            ))
    ]

-- An amount is shown in the largest unit up to tera that its double reaches, to the nearest tenth
-- of it, or as whole bytes below the first; the double is within one part in 2^53 of the amount.
pub human_bytes-Shown : (n : ℕ) → 0 < n → Shown n (human_bytes (pos n))
human_bytes-Shown n h =
    let near = float64-Near n in
    record {
      double = float64 n;
      near = near;
      unit = unit_of n;
      fits = unit_of-Fits n (omega (arith, near.below));
      written = written n h;
    }

min_100 : (p : ℤ) → at_most_100 p ≤ℤ pos 100
min_100 p = ground arith

pct_of-le : (used quota : ℤ) → pct_of used quota ≤ℤ pos 100
unfolding pct_of
pct_of-le used quota = ground (arith, min_100 (div64 (mul64 used (pos 100)) quota))

-- The bar of the page: never above 100; for a positive quota the exact share while a hundred times
-- the usage fits 63 bits, and zero or negative once that product lies from 2^63 up to 2^64.
pub pct_of_exact :
    (used quota : ℕ)
    → 0 < quota
    → (pct_of (pos used) (pos quota) ≤ℤ pos 100)
      × (used * 100 < 2 ^ 63
          → used ≤ quota
          → pct_of (pos used) (pos quota) ≡ pos (used * 100 / quota))
      × (2 ^ 63 ≤ used * 100 → used * 100 < 2 ^ 64 → pct_of (pos used) (pos quota) ≤ℤ pos 0)
pct_of_exact used quota h = (
  pct_of-le (pos used) (pos quota),
  λ fits within.
      unfold pct_of in
      ground (arith, percent used quota fits, div-le_of_le-mul quota {m = used * 100} {n = 100}),
  λ low high. unfold pct_of in ground (arith, percent_wraps used quota low high),
)
