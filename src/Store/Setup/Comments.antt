-- ===== src/Store/Setup/Comments.antt =====
-- `stripSQLComments` and `firstLine` of internal/store/store.go.
use Prim.Native.String.{String, [], ◌∷◌}
use Prim.Native.Char.{code}
use mathlib.Core.List.{List, [], ◌∷◌}
use node_panel.Prelude.{map, Bool, false, ◌&&◌, eqb, if◌then◌else◌}
use node_panel.Prelude.Text.{split, before_code, ◌<>◌}

abbrev pub starts_with_dash : String → Bool
starts_with_dash [] = false
starts_with_dash (c ∷ s) = eqb (code c) b'-'

-- what stands before the first "--" of a line
unfoldable pub before_dashes : String → String
before_dashes [] = []
before_dashes (c ∷ s) =
    let rest = before_dashes s in if eqb (code c) b'-' && starts_with_dash s then [] else c ∷ rest

-- `strings.Join(lines, "\n")`
unfoldable pub join_lines : List String → String
join_lines [] = []
join_lines (l ∷ []) = l
join_lines (l ∷ m ∷ ms) = l <> "\n" <> join_lines (m ∷ ms)

unfoldable pub strip_sql_comments : String → String
unfolding before_dashes join_lines
strip_sql_comments sql = join_lines (map before_dashes (split b'\n' sql))

unfoldable pub first_line : String → String
first_line s = before_code b'\n' s
