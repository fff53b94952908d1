-- ===== src/Tests/Setup.antt =====
-- internal/store/store.go: opening an older file, an interrupted one, and one that is in shape.
use Prim.Native.String.{String, [], ◌∷◌}
use Prim.Native.Char.{Char, nul}
use mathlib.Core.List.{[]}
use text.Mathlib.TextLemmas.{cons-append}
use node_panel.Prelude.{
  ℕ, zero, suc, some, none, true, false, ◌≡◌, ◌∷◌, refl, arith, subst, sym, eqb, if◌then◌else◌,
  select,
}
use node_panel.Prelude.Text.{is_empty, ◌<>◌}
use node_panel.Schema.{Db, constrained}
use node_panel.Runtime.{Env, World}
use node_panel.Runtime.Exec.{Err, failure, Result, ok, err}
use node_panel.Store.Setup.{migrate, rebuild_usage, backfill_tokens, apply_schema}
use node_panel.Store.Setup.Migrated.{Migrated, migrate-Migrated}
use node_panel.Store.Setup.Columns.{Genuine}
use node_panel.Store.Setup.Backfill.{Uuids, WholeRows, Backfilled, backfill_tokens-ok}
use node_panel.Store.Setup.Rebuild.{Left, rebuild_usage-Left}
use node_panel.Store.Setup.Stripped.{comment, apply_schema-comment}
use node_panel.Store.Subscriptions.{strip_dashes}
use node_panel.Tests.Fixtures.{demo, panel, tables, tally, subscription_row}

abbrev older : World
older = record panel {
  db = record tables {
    shape = record {
      node_columns = some [];
      subscription_columns = some [];
      usage = constrained;
      rebuilt = none;
      foreign_keys = true;
    };
  };
}

genuine : Genuine
genuine = record { apart = λ t text h. absurd (ground (arith, h)) }

tally_nonempty : (t : ℕ) → is_empty (strip_dashes (tally t)) ≡ false
unfolding strip_dashes node_panel.Prelude.Text.remove_code
tally_nonempty zero = refl
tally_nonempty (suc t) =
    subst (λ s. is_empty (strip_dashes s) ≡ false) (sym (cons-append _ "" (tally t))) refl

whole_rows : WholeRows
whole_rows = record { unbroken = λ t. refl }

uuids : Uuids
uuids = record { nonempty = tally_nonempty }

migrates : (migrate older).0 ≡ ok tt
unfolding migrate node_panel.Store.Subscriptions.new_sub_token
migrates = refl

migrate-Migrated_example : Migrated older.db (migrate older).1.db
migrate-Migrated_example = migrate-Migrated older genuine uuids whole_rows migrates

abbrev interrupted : World
interrupted = record older {
  db = record older.db { shape = record older.db.shape { rebuilt = some [] } };
}

-- the driver fails at the second statement
abbrev failing : Env
failing = record demo { db_fault = λ t. if eqb t 1 then some "disk I/O error" else none }

rebuild_fails :
    ((rebuild_usage ⦃env = failing⦄ older).0
      ≡ err (
          failure
            "usage_records migration \"INSERT INTO usage_records_new (id, tenant_id, node_id, period_id, ts, used_bytes_cumulative)\": disk I/O error"))
unfolding rebuild_usage
rebuild_fails = refl

rebuild_usage-Left_example :
    Left ⦃env = failing⦄ older.db (rebuild_usage ⦃env = failing⦄ older).1.db
rebuild_usage-Left_example = rebuild_usage-Left ⦃env = failing⦄ older

abbrev untokened : World
untokened = record panel {
  db = record tables { subscriptions = record subscription_row { sub_token = some "" } ∷ [] };
}

fills : (backfill_tokens untokened).0 ≡ ok tt
unfolding backfill_tokens node_panel.Store.Subscriptions.new_sub_token
fills = refl

backfill_tokens-ok_example : Backfilled untokened.db (backfill_tokens untokened).1.db
backfill_tokens-ok_example = backfill_tokens-ok untokened uuids whole_rows fills

abbrev first_char : String → Char
first_char [] = nul
first_char (c ∷ s) = c

-- an engine that takes every statement
abbrev engine : String → Db → Result Err (Unit {0} × Db)
engine text db = ok (tt, db)

abbrev dash : Char
dash = first_char "-"

abbrev newline : Char
newline = first_char "\n"

apply_schema-comment_example :
    apply_schema engine ("CREATE TABLE t (" <> comment dash newline " a; b" "id TEXT);") panel
    ≡ apply_schema engine ("CREATE TABLE t (" <> comment dash newline "" "id TEXT);") panel
unfolding node_panel.Prelude.Text.contains_code
apply_schema-comment_example =
    apply_schema-comment dash newline refl refl engine "CREATE TABLE t (" " a; b" "" "id TEXT);"
      refl refl panel
