-- ===== src/Api/Inbounds/Redaction.antt =====
-- What `redactInboundJSON` of internal/api/nodes.go leaves of an inbound.
use node_panel.Prelude.{
  String, none, some, some-injective, eq_iff, false, ◌≡◌, inl, inr, refl, ap, sym, ◌∙◌, arith, ◌==◌,
  Bool-cases,
}
use mathlib.Core.Option.{some-ne-none}
use node_panel.Wire.{Json, null, other, object, Fields, end, field}
use node_panel.Api.Inbounds.{lookup, remove, at_key, redact, without_key, without_reality_key}

lookup-remove : (key : String) (fs : Fields) → lookup key (remove key fs) ≡ none
lookup-remove key end = refl
lookup-remove key (field k v rest) = elim (Bool-cases (k == key)) [
  | inl e ↦ rw e (lookup-remove key rest)
  | inr e ↦ rw e (rw e (lookup-remove key rest))
]

at_key-image :
    (key : String) (f : Json → Json) (fs : Fields) (y : Json)
    → lookup key (at_key key f fs) ≡ some y
    → (x : Json) × (f x ≡ y)
at_key-image key f end y = λ h. absurd (some-ne-none y (sym h))
at_key-image key f (field k v rest) y = elim (Bool-cases (k == key)) [
  | inl e ↦ rw e (rw e (λ h. (v, some-injective (f v) y h)))
  | inr e ↦ rw e (rw e (at_key-image key f rest y))
]

lookup-at_key_other :
    (key key' : String) (f : Json → Json) (fs : Fields)
    → (key == key') ≡ false
    → lookup key' (at_key key f fs) ≡ lookup key' fs
lookup-at_key_other key key' f end h = refl
lookup-at_key_other key key' f (field k v rest) h = elim (Bool-cases (k == key)) [
  | inl e ↦
      rw (e, ap (λ s. s == key') ((eq_iff k key).0 e) ∙ h) (lookup-at_key_other key key' f rest h)
  | inr e ↦ rw e (elim (Bool-cases (k == key')) [
    | inl d ↦ rw d refl
    | inr d ↦ rw d (lookup-at_key_other key key' f rest h)
  ])
]

abbrev object_fields : Json → Fields
object_fields null = end
object_fields (other s) = end
object_fields (object fs) = fs

image_object :
    (x : Json) (ss : Fields)
    → without_reality_key x ≡ object ss
    → (fs : Fields) × (ss ≡ at_key "realitySettings" without_key fs)
image_object null ss h = absurd (ground arith)
image_object (other s) ss h = absurd (ground arith)
image_object (object fs) ss h = (fs, ap object_fields (sym h))

image_removed :
    (x : Json) (rs : Fields)
    → without_key x ≡ object rs
    → (fs : Fields) × (rs ≡ remove "privateKey" fs)
image_removed null rs h = absurd (ground arith)
image_removed (other s) rs h = absurd (ground arith)
image_removed (object fs) rs h = (fs, ap object_fields (sym h))

lookup-at_key_same :
    (key : String) (f : Json → Json) (fs : Fields) (x : Json)
    → lookup key fs ≡ some x
    → lookup key (at_key key f fs) ≡ some (f x)
lookup-at_key_same key f end x = λ h. absurd (some-ne-none x (sym h))
lookup-at_key_same key f (field k v rest) x = elim (Bool-cases (k == key)) [
  | inl e ↦ rw e (rw e (λ h. ap some (ap f (some-injective v x h))))
  | inr e ↦ rw e (rw e (lookup-at_key_same key f rest x))
]

lookup-remove_other :
    (key key' : String) (fs : Fields)
    → (key == key') ≡ false
    → lookup key' (remove key fs) ≡ lookup key' fs
lookup-remove_other key key' end h = refl
lookup-remove_other key key' (field k v rest) h = elim (Bool-cases (k == key)) [
  | inl e ↦
      rw (e, ap (λ s. s == key') ((eq_iff k key).0 e) ∙ h) (lookup-remove_other key key' rest h)
  | inr e ↦ rw e (elim (Bool-cases (k == key')) [
    | inl d ↦ rw d refl
    | inr d ↦ rw d (lookup-remove_other key key' rest h)
  ])
]

-- The Reality settings `rs` have become `rs'`: the private key is gone, the rest is there.
pub record KeyGone (rs rs' : Fields) : Type 0 where
  pub gone : lookup "privateKey" rs' ≡ none
  pub kept : (key : String) → ("privateKey" == key) ≡ false → lookup key rs' ≡ lookup key rs

-- The stream settings `ss` have become `ss'`: only an object under realitySettings has changed.
pub record StreamRedacted (ss ss' : Fields) : Type 0 where
  pub kept : (key : String) → ("realitySettings" == key) ≡ false → lookup key ss' ≡ lookup key ss
  pub reality :
      (rs : Fields)
      → lookup "realitySettings" ss ≡ some (object rs)
      → (rs' : Fields) × (lookup "realitySettings" ss' ≡ some (object rs')) × KeyGone rs rs'

at_key-StreamRedacted : (ss : Fields) → StreamRedacted ss (at_key "realitySettings" without_key ss)
at_key-StreamRedacted ss = record {
  kept = λ key h. lookup-at_key_other "realitySettings" key without_key ss h;
  reality = λ rs h. (
    remove "privateKey" rs,
    lookup-at_key_same "realitySettings" without_key ss (object rs) h,
    record {
      gone = lookup-remove "privateKey" rs;
      kept = λ key k. lookup-remove_other "privateKey" key rs k;
    },
  );
}

-- In a redacted inbound the Reality settings under the stream settings have no private key.
-- Every other member of the inbound, of the stream settings and of the Reality settings is as it
-- was.
pub redact_hides :
    (fs : Fields)
    → ((ss rs : Fields)
        → lookup "streamSettings" (redact fs) ≡ some (object ss)
        → lookup "realitySettings" ss ≡ some (object rs)
        → lookup "privateKey" rs ≡ none)
      × ((key : String)
          → ("streamSettings" == key) ≡ false
          → lookup key (redact fs) ≡ lookup key fs)
      × ((ss : Fields)
          → lookup "streamSettings" fs ≡ some (object ss)
          → (ss' : Fields) × (lookup "streamSettings" (redact fs) ≡ some (object ss'))
            × StreamRedacted ss ss')
unfolding redact
redact_hides fs = (
  λ ss rs stream reality.
      let (x, p) = at_key-image "streamSettings" without_reality_key fs (object ss) stream in
      let (inner, q) = image_object x ss p in
      let (z, r) =
        at_key-image "realitySettings" without_key inner (object rs)
          (ap (lookup "realitySettings") (sym q) ∙ reality) in
      let (kept, t) = image_removed z rs r in
      ap (lookup "privateKey") t ∙ lookup-remove "privateKey" kept,
  λ key h. lookup-at_key_other "streamSettings" key without_reality_key fs h,
  λ ss h. (
    at_key "realitySettings" without_key ss,
    lookup-at_key_same "streamSettings" without_reality_key fs (object ss) h,
    at_key-StreamRedacted ss,
  ),
)
