-- ===== src/Api/Decode.antt =====
-- `decodeJSON` of internal/api/api.go, over the bytes of a request body.
use node_panel.Prelude.{
  ℕ, zero, suc, ◌*◌, Option, none, some, List, [], ◌∷◌, Bool, leb, if◌then◌else◌, length, eqb, ◌&&◌,
}
use node_panel.Wire.{Decoded, value, eof, bad}

-- What the client sends: the bytes, and whether the stream breaks off after them.
pub record BodyStream : Type 0 where
  pub bytes : List ℕ
  pub broken : Bool

unfoldable pub first_bytes : ℕ → List ℕ → List ℕ
first_bytes zero bs = []
first_bytes (suc n) [] = []
first_bytes (suc n) (b ∷ bs) = b ∷ first_bytes n bs

abbrev pub body_limit : ℕ
body_limit = 8 * 1048576

-- `io.ReadAll(io.LimitReader(r.Body, n))`: what lies past the limit is not looked at.
unfoldable pub read_limited : ℕ → BodyStream → Option (List ℕ)
unfolding first_bytes
read_limited n s =
    if leb n (length s.bytes)
    then some (first_bytes n s.bytes)
    else if s.broken
    then none
    else some s.bytes

-- `bytes.TrimPrefix` of the UTF-8 byte order mark
unfoldable pub trim_bom : List ℕ → List ℕ
trim_bom (a ∷ b ∷ c ∷ rest) =
    if eqb a 0xEF && eqb b 0xBB && eqb c 0xBF then rest else a ∷ b ∷ c ∷ rest
trim_bom bs = bs

-- `decode` is the decoder of one request type, which refuses unknown fields.
module _ {A : Type 0} (decode : List ℕ → Decoded A) where
  abbrev decode_read : Option (List ℕ) → Decoded A
  decode_read none = bad "body"
  decode_read (some bs) = decode (trim_bom bs)

  unfoldable pub decode_json : BodyStream → Decoded A
  unfolding read_limited trim_bom
  decode_json s = decode_read (read_limited body_limit s)

-- a handler that answers every error of `decodeJSON` alike
abbrev pub valid : {A : Type 0} → Decoded A → Option A
valid (value a) = some a
valid eof = none
valid (bad e) = none
