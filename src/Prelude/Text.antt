-- ===== src/Prelude/Text.antt =====
-- What the panel uses of Go's `strings`, over the code points of a native `String`.
use Prim.Native.Nat.{ℕ, zero, suc, ◌+◌, ◌/◌, ◌%◌}
use Prim.Native.String
use Prim.Native.Char.{Char, code}
use Prim.Native.String.{String, [], ◌∷◌}
use mathlib.Core.Bool.{Bool, true, false, ◌&&◌, ◌||◌}
use mathlib.Core.List.{List, [], ◌∷◌}
use node_panel.Prelude.Tests.{leb, ltb, eqb, if◌then◌else◌}

-- `unicode.IsSpace`
unfoldable pub is_space : ℕ → Bool
is_space c =
    leb 9 c && leb c 13
    || eqb c 32
    || eqb c 0x85
    || eqb c 0xa0
    || eqb c 0x1680
    || leb 0x2000 c && leb c 0x200a
    || eqb c 0x2028
    || eqb c 0x2029
    || eqb c 0x202f
    || eqb c 0x205f
    || eqb c 0x3000

abbrev pub is_empty : String → Bool
is_empty [] = true
is_empty (c ∷ s) = false

unfoldable pub trim_left : String → String
trim_left [] = []
trim_left (c ∷ s) = if is_space (code c) then trim_left s else c ∷ s

unfoldable pub trim_right : String → String
trim_right [] = []
trim_right (c ∷ s) = let t = trim_right s in if is_empty t && is_space (code c) then [] else c ∷ t

-- `strings.TrimSpace`
unfoldable pub trim_space : String → String
trim_space s = trim_right (trim_left s)

-- one more character before the first piece
abbrev pub grow : Char → List String → List String
grow c [] = (c ∷ []) ∷ []
grow c (p ∷ ps) = (c ∷ p) ∷ ps

-- `strings.Split` at a one-byte separator
unfoldable pub split : ℕ → String → List String
split sep [] = [] ∷ []
split sep (c ∷ s) = let rest = split sep s in if eqb (code c) sep then [] ∷ rest else grow c rest

-- `strings.ReplaceAll` of a one-byte text by the empty one
unfoldable pub remove_code : ℕ → String → String
remove_code sep [] = []
remove_code sep (c ∷ s) =
    let rest = remove_code sep s in if eqb (code c) sep then rest else c ∷ rest

-- `strings.Contains` of a one-byte text
unfoldable pub contains_code : ℕ → String → Bool
contains_code sep [] = false
contains_code sep (c ∷ s) =
    let rest = contains_code sep s in if eqb (code c) sep then true else rest

-- what stands before the first occurrence of a one-byte text
unfoldable pub before_code : ℕ → String → String
before_code sep [] = []
before_code sep (c ∷ s) = let rest = before_code sep s in if eqb (code c) sep then [] else c ∷ rest

digit : ℕ → String
digit n =
    if eqb n 0
    then "0"
    else if eqb n 1
    then "1"
    else if eqb n 2
    then "2"
    else if eqb n 3
    then "3"
    else if eqb n 4
    then "4"
    else if eqb n 5
    then "5"
    else if eqb n 6
    then "6"
    else if eqb n 7
    then "7"
    else if eqb n 8
    then "8"
    else "9"

decimal_from : ℕ → ℕ → String
unfolding digit
decimal_from zero n = ""
decimal_from (suc f) n =
    let high = decimal_from f (n / 10) in
    if ltb n 10 then digit n else String.◌++◌ high (digit (n % 10))

-- `%d` of a number that is not negative; `n + 1` rounds are enough for the digits of `n`
unfoldable pub decimal : ℕ → String
unfolding decimal_from
decimal n = decimal_from (n + 1) n

infixr 66 ◌<>◌
abbrev pub ◌<>◌ : String → String → String
s <> t = String.◌++◌ s t

-- `strings.TrimRight` with a one-byte cutset
unfoldable pub trim_right_code : ℕ → String → String
trim_right_code sep [] = []
trim_right_code sep (c ∷ s) =
    let t = trim_right_code sep s in if is_empty t && eqb (code c) sep then [] else c ∷ t

-- the order of a text column: by the bytes, and so by the code points
abbrev pub text_before : String → String → Bool
text_before s [] = false
text_before [] (d ∷ t) = true
text_before (c ∷ s) (d ∷ t) =
    let rest = text_before s t in
    if ltb (code c) (code d) then true else eqb (code c) (code d) && rest

-- `strings.HasPrefix`
unfoldable pub starts_with : String → String → Bool
starts_with [] s = true
starts_with (c ∷ p) [] = false
starts_with (c ∷ p) (d ∷ s) = let rest = starts_with p s in eqb (code c) (code d) && rest

-- `strings.Contains`
unfoldable pub contains : String → String → Bool
contains part [] = is_empty part
contains part (c ∷ s) =
    let rest = contains part s in if starts_with part (c ∷ s) then true else rest
