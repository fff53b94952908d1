-- ===== src/Store/NewNode.antt =====
-- `CreateNode` of internal/store/nodes.go, and what `DeleteNode` and `UpdateNodeHealth` do to the
-- row of a node that is new.
use node_panel.Prelude.{
  String, true, false, Bool, none, List, [], ◌∷◌, ◌++◌, ◌≡◌, ◌≢◌, arith, any, count, update,
  select-append_new, eq_refl,
}
use node_panel.Prelude.Int.{ℤ}
use node_panel.Domain.{Node}
use node_panel.Schema.{Db, NodeRow}
use node_panel.Runtime.{Env, World}
use node_panel.Runtime.Exec.{Err, ok, err}
use node_panel.Store.Table.{holds}
use node_panel.Store.Nodes.{
  has_id, new_row, create_node, delete_node, update_node_health, replace_health,
}

-- As the foreign key of the subscriptions has it: what is no node's id is no subscription's node.
pub record NoOrphans (db : Db) : Type 0 where
  pub unreferred :
      (id : String)
      → any (has_id id) db.nodes ≡ false
      → any (λ s. holds id s.node_id) db.subscriptions ≡ false

abbrev pub with_node : Node → Db → Db
with_node n db = record db { nodes = db.nodes ++ new_row n ∷ [] }

abbrev pub nodes_changed : String → (NodeRow → NodeRow) → Db → Db
nodes_changed id f db = record db { nodes = update (has_id id) f db.nodes }

-- The node is stored with the given values, and its id was free.
pub record NewNode (name address master_key config_json : String) (n : Node) (db : Db)
    : Type 0 where
  pub fresh : any (has_id n.id) db.nodes ≡ false
  pub name_kept : n.name ≡ name
  pub address_kept : n.address ≡ address
  pub key_kept : n.master_key ≡ master_key
  pub config_kept : n.config_json ≡ config_json

count-append_new :
    (p : NodeRow → Bool) (xs : List NodeRow) (x : NodeRow) → p x ≡ true → count p (xs ++ x ∷ []) ≢ 0
count-append_new p [] x h = ground arith
count-append_new p (y ∷ ys) x h = ground (arith, count-append_new p ys x h)

module _ ⦃env : Env⦄ where
  module _ (name address master_key cert_pem config_json : String) (port : ℤ)
      (core_key host_info : String) (w : World) where
    pub db-create_node_err :
        {e : Err}
        → (create_node name address master_key cert_pem config_json port core_key host_info w).0
          ≡ err e
        → (create_node name address master_key cert_pem config_json port core_key host_info w).1.db
          ≡ w.db
    unfolding create_node
    db-create_node_err h = ground arith

    pub db-create_node_ok :
        {n : Node}
        → (create_node name address master_key cert_pem config_json port core_key host_info w).0
          ≡ ok n
        → ((create_node name address master_key cert_pem config_json port core_key host_info w).1.db
            ≡ with_node n w.db)
          × NewNode name address master_key config_json n w.db
    unfolding create_node
    db-create_node_ok h = ground arith

  module _ (n : Node) (db : Db) (w : World) (answers : env.db_fault w.tick ≡ none) where
    -- taking the new node out again
    pub db-delete_new_node :
        w.db ≡ with_node n db
        → any (has_id n.id) db.nodes ≡ false
        → NoOrphans db
        → (delete_node n.id w).1.db ≡ db
    unfolding delete_node
    db-delete_new_node h fresh ok_refs = rw h (
        ground (
          arith,
          answers,
          eq_refl n.id,
          ok_refs.unreferred n.id fresh,
          select-append_new (has_id n.id) db.nodes (new_row n) fresh (eq_refl n.id),
          count-append_new (has_id n.id) db.nodes (new_row n) (eq_refl n.id),
        ))

    pub db-update_node_health :
        (id status version : String) (t : ℤ)
        → (update_node_health id status version t w).1.db
          ≡ nodes_changed id (replace_health status version t) w.db
    unfolding update_node_health
    db-update_node_health id status version t = ground (arith, answers)
