-- ===== src/Store/Setup/Stripped.antt =====
-- `stripSQLComments` of internal/store/store.go: what a comment says does not matter.
use Prim.Native.String.{String, [], ◌∷◌}
use Prim.Native.Char.{Char, code}
use mathlib.Core.List.{List, [], ◌∷◌}
use text.Mathlib.TextLemmas.{nil-append, cons-append}
use node_panel.Prelude.{◌≡◌, refl, ap, sym, ◌∙◌, false, inl, inr, map, arith, eqb, Bool-cases}
use node_panel.Prelude.Text.{◌<>◌, grow, split, contains_code}
use node_panel.Schema.{Db}
use node_panel.Runtime.{Env, World}
use node_panel.Runtime.Exec.{Err, Result}
use node_panel.Store.Setup.{run_pieces, apply_schema}
use node_panel.Store.Setup.Comments.{
  before_dashes, starts_with_dash, join_lines, strip_sql_comments,
}

-- The same lines once the comments are cut off; the first ones also begin alike.
pub record Alike (h h' : String) (t t' : List String) : Type 0 where
  pub lead : starts_with_dash h ≡ starts_with_dash h'
  pub first : before_dashes h ≡ before_dashes h'
  pub later : map before_dashes t ≡ map before_dashes t'

pub data AlikeLines : List String → List String → Type 0 where
  alike : (h h' : String) (t t' : List String) → Alike h h' t t' → AlikeLines (h ∷ t) (h' ∷ t')

Alike-cons :
    (x : Char) (h h' : String) (t t' : List String) → Alike h h' t t' → Alike (x ∷ h) (x ∷ h') t t'
unfolding before_dashes
Alike-cons x h h' t t' a = record {
  lead = refl;
  first = rw (a.lead, a.first) refl;
  later = a.later;
}

map-AlikeLines :
    {ls ls' : List String} → AlikeLines ls ls' → map before_dashes ls ≡ map before_dashes ls'
map-AlikeLines (alike h h' t t' a) = rw (a.first, a.later) refl

AlikeLines-grow :
    (x : Char) {ls ls' : List String} → AlikeLines ls ls' → AlikeLines (grow x ls) (grow x ls')
AlikeLines-grow x (alike h h' t t' a) = alike (x ∷ h) (x ∷ h') t t' (Alike-cons x h h' t t' a)

AlikeLines-new : {ls ls' : List String} → AlikeLines ls ls' → AlikeLines ([] ∷ ls) ([] ∷ ls')
AlikeLines-new {ls} {ls'} a =
    alike [] [] ls ls' (record { lead = refl; first = refl; later = map-AlikeLines a })

-- two dashes, a comment up to the end of its line, and what follows
abbrev pub comment : Char → Char → String → String → String
comment d n c post = d ∷ d ∷ (c <> (n ∷ post))

module _ (d n : Char) (is_dash : code d ≡ b'-') (is_newline : code n ≡ b'\n') where
  split_line :
      (c post : String)
      → contains_code b'\n' c ≡ false
      → split b'\n' (c <> (n ∷ post)) ≡ c ∷ split b'\n' post
  unfolding split contains_code
  split_line [] post free = rw (nil-append (n ∷ post)) (ground (arith, is_newline))
  split_line (x ∷ c) post free = elim (Bool-cases (eqb (code x) b'\n')) [
    | inl e ↦ absurd (ground (arith, e, free))
    | inr e ↦ rw (cons-append x c (n ∷ post), e, split_line c post (ground (arith, e, free))) refl
  ]

  split-comment :
      (c post : String)
      → contains_code b'\n' c ≡ false
      → split b'\n' (comment d n c post) ≡ (d ∷ d ∷ c) ∷ split b'\n' post
  unfolding split
  split-comment c post free = rw (split_line c post free, is_dash) refl

  cut-comment : (c : String) → before_dashes (d ∷ d ∷ c) ≡ []
  unfolding before_dashes
  cut-comment c = ground (arith, is_dash)

  AlikeLines-comment :
      (pre c c' post : String)
      → contains_code b'\n' c ≡ false
      → contains_code b'\n' c' ≡ false
      → AlikeLines
          (split b'\n' (pre <> comment d n c post))
          (split b'\n' (pre <> comment d n c' post))
  unfolding split
  AlikeLines-comment [] c c' post f f' =
      rw
        (
          nil-append (comment d n c post),
          nil-append (comment d n c' post),
          split-comment c post f,
          split-comment c' post f',
        )
        (alike _ _ _ _
          (record { lead = refl; first = cut-comment c ∙ sym (cut-comment c'); later = refl }))
  AlikeLines-comment (x ∷ pre) c c' post f f' =
      rw (cons-append x pre (comment d n c post), cons-append x pre (comment d n c' post))
        (elim (Bool-cases (eqb (code x) b'\n')) [
          | inl e ↦ rw e (AlikeLines-new (AlikeLines-comment pre c c' post f f'))
          | inr e ↦ rw e (AlikeLines-grow x (AlikeLines-comment pre c c' post f f'))
        ])

  pub strip_sql_comments-comment :
      (pre c c' post : String)
      → contains_code b'\n' c ≡ false
      → contains_code b'\n' c' ≡ false
      → strip_sql_comments (pre <> comment d n c post)
        ≡ strip_sql_comments (pre <> comment d n c' post)
  unfolding strip_sql_comments
  strip_sql_comments-comment pre c c' post f f' =
      ap join_lines (map-AlikeLines (AlikeLines-comment pre c c' post f f'))

  -- Two schemas that differ in the words of one comment are the same to the panel, wherever the
  -- comment stands and whatever it says, a semicolon included: the same statements run, with the
  -- same outcome, whatever the engine makes of them.
  pub apply_schema-comment :
      ⦃env : Env⦄ (exec_sql : String → Db → Result Err (Unit {0} × Db)) (pre c c' post : String)
      → contains_code b'\n' c ≡ false
      → contains_code b'\n' c' ≡ false
      → (w : World)
      → apply_schema exec_sql (pre <> comment d n c post) w
        ≡ apply_schema exec_sql (pre <> comment d n c' post) w
  unfolding apply_schema
  apply_schema-comment exec_sql pre c c' post f f' w =
      ap (λ s. run_pieces exec_sql (split b';' s) w) (strip_sql_comments-comment pre c c' post f f')
