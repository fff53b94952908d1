-- ===== src/Store/Setup/Again.antt =====
-- `migrate` of internal/store/store.go on a file that is in shape: a start that changes nothing.
use node_panel.Prelude.{◌≡◌}
use node_panel.Runtime.{Env, World}
use node_panel.Runtime.Exec.{Err, Result, ok, Exec}

module _ ⦃env : Env⦄ where
  -- The call succeeds and only time has passed.
  abbrev Idle : World → Result Err (Unit {0}) × World → Type 0
  Idle w (r, w') = (r ≡ ok tt) × (w'.db ≡ w.db)
