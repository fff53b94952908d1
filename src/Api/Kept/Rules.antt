-- ===== src/Api/Kept/Rules.antt =====
-- The rules for what handlers are built of.
use node_panel.Prelude.{Option, none, some}
use node_panel.Schema.{Db}
use node_panel.Runtime.Exec.{Result, ok, err, Exec, on_result}
use node_panel.Runtime.Exec.Keeps.{Keeps, keeps_rules}
use node_panel.Store.Kept.{store_calls}
use node_panel.NodeClient.Kept.{client_calls}
use node_panel.Api.Response.{Response, decoded}

module _ {P : Db → Type 0} {A : Type 0} where
  pub Keeps-decoded : (o : Option A) (r : Response) → Keeps P (decoded o r)
  Keeps-decoded none r = record { at = λ w h. h }
  Keeps-decoded (some a) r = record { at = λ w h. h }

  pub Keeps-on_result :
      {E F B : Type 0} (r : Result E A) (f : A → Exec F B) (g : E → Exec F B)
      → ((a : A) → Keeps P (f a))
      → ((e : E) → Keeps P (g e))
      → Keeps P (on_result r f g)
  Keeps-on_result (ok a) f g kf kg = kf a
  Keeps-on_result (err e) f g kf kg = kg e

pub ruleset handler_rules = (keeps_rules, Keeps-decoded, Keeps-on_result, store_calls, client_calls)
