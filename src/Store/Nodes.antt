-- ===== src/Store/Nodes.antt =====
-- internal/store/nodes.go, with `DeleteNode`, `UpdateNodeCert` and `UpdateNodeConfig` of
-- internal/store/mutations.go.
use node_panel.Prelude.{
  ℕ, String, Option, none, some, List, [], ◌∷◌, ◌++◌, map, Bool, not, ◌&&◌, ◌==◌, any, find?,
  select, count, update, if◌then◌else◌,
}
use node_panel.Prelude.Int.{ℤ, pos, leb_ℤ}
use node_panel.Domain.{Node}
use node_panel.Schema.{Db, NodeRow}
use node_panel.Runtime.{Env}
use node_panel.Runtime.Exec.{
  Err, not_found, failure, Result, ok, err, Exec, statement, new_uuid, unix_now, ◌>>=◌, ◌>>◌,
  return,
}
use node_panel.Store.Table.{
  null_string, holds, unique, foreign_key, newest_first, query, check_affected,
}

abbrev null_int : Option ℤ → ℤ
null_int none = pos 0
null_int (some n) = n

-- `scanNode`
abbrev pub scan_node : NodeRow → Node
scan_node r = record {
  id = r.id;
  name = r.name;
  address = r.address;
  master_key = r.master_key;
  core_key = null_string r.core_key;
  cert_pem = null_string r.cert_pem;
  config_json = null_string r.config_json;
  host_info = null_string r.host_info;
  grpc_port = r.grpc_port;
  status = r.status;
  version = null_string r.version;
  capacity_score = r.capacity_score;
  last_seen_at = null_int r.last_seen_at;
  created_at = r.created_at;
}

abbrev pub has_id : String → NodeRow → Bool
has_id id r = r.id == id

-- The INSERT of `CreateNode` names neither version, capacity_score nor last_seen_at.
abbrev pub new_row : Node → NodeRow
new_row n = record {
  id = n.id;
  name = n.name;
  address = n.address;
  master_key = n.master_key;
  core_key = some n.core_key;
  cert_pem = some n.cert_pem;
  config_json = some n.config_json;
  host_info = some n.host_info;
  grpc_port = n.grpc_port;
  status = n.status;
  version = none;
  capacity_score = pos 0;
  last_seen_at = none;
  created_at = n.created_at;
}

unfoldable pub insert_node : Node → Db → Result Err (Unit {0} × Db)
insert_node n db =
    if any (has_id n.id) db.nodes
    then err (failure unique)
    else ok (tt, record db { nodes = db.nodes ++ new_row n ∷ [] })

-- DELETE FROM nodes: `node_id TEXT REFERENCES nodes(id)` has no ON DELETE action.
unfoldable pub remove_node : String → Db → Result Err (ℕ × Db)
remove_node id db =
    if db.shape.foreign_keys
      && (any (has_id id) db.nodes && any (λ s. holds id s.node_id) db.subscriptions)
    then err (failure foreign_key)
    else ok
        (count (has_id id) db.nodes, record db { nodes = select (λ r. not (has_id id r)) db.nodes })

unfoldable pub select_node : String → Db → Result Err Node
select_node id db = elim (find? (has_id id) db.nodes) [
  | none ↦ err not_found
  | some r ↦ ok (scan_node r)
]

-- `NodeUpdate`: an absent field leaves the column alone, an empty text clears it.
pub record NodeUpdate : Type 0 where
  pub name : Option String
  pub address : Option String
  pub grpc_port : Option ℤ
  pub master_key : Option String
  pub core_key : Option String
  pub cert_pem : Option String
  pub host_info : Option String

abbrev pub pick : Option String → String → String
pick none current = current
pick (some v) current = v

abbrev pub pick_port : Option ℤ → ℤ → ℤ
pick_port none current = current
pick_port (some p) current = if leb_ℤ p (pos 0) then current else p

-- The SET clause of `UpdateNode`, computed from the node that was read.
unfoldable pub edited : NodeUpdate → Node → NodeRow → NodeRow
edited upd cur r = record r {
  name = pick upd.name cur.name;
  address = pick upd.address cur.address;
  grpc_port = pick_port upd.grpc_port cur.grpc_port;
  master_key = pick upd.master_key cur.master_key;
  core_key = some (pick upd.core_key cur.core_key);
  cert_pem = some (pick upd.cert_pem cur.cert_pem);
  host_info = some (pick upd.host_info cur.host_info);
}

abbrev pub replace_health : String → String → ℤ → NodeRow → NodeRow
replace_health status version last_seen r = record r {
  status = status;
  version = some version;
  last_seen_at = some last_seen;
}

abbrev pub default_grpc_port : ℤ
default_grpc_port = pos 62050

module _ ⦃env : Env⦄ where
  unfoldable pub create_node :
      String → String → String → String → String → ℤ → String → String → Exec Err Node
  unfolding insert_node
  create_node name address master_key cert_pem config_json grpc_port core_key host_info = do
    id ← new_uuid
    now ← unix_now
    let n : Node = record {
      id = id;
      name = name;
      address = address;
      master_key = master_key;
      core_key = core_key;
      cert_pem = cert_pem;
      config_json = config_json;
      host_info = host_info;
      grpc_port = if leb_ℤ grpc_port (pos 0) then default_grpc_port else grpc_port;
      status = "unknown";
      version = "";
      capacity_score = pos 0;
      last_seen_at = pos 0;
      created_at = now;
    }
    statement (insert_node n)
    return n

  unfoldable pub get_node : String → Exec Err Node
  unfolding select_node
  get_node id = query (select_node id)

  unfoldable pub list_nodes : Exec Err (List Node)
  list_nodes = query (λ db. ok (map scan_node (newest_first (λ r. r.created_at) db.nodes)))

  abbrev change : String → (NodeRow → NodeRow) → Exec Err (Unit {0})
  change id f = statement (λ db. ok (tt, record db { nodes = update (has_id id) f db.nodes }))

  unfoldable pub update_node : String → NodeUpdate → Exec Err (Unit {0})
  unfolding get_node edited
  update_node id upd = do cur ← get_node id; change id (edited upd cur)

  unfoldable pub set_node_host_info : String → String → Exec Err (Unit {0})
  set_node_host_info id host_info = change id (λ r. record r { host_info = some host_info })

  unfoldable pub update_node_health : String → String → String → ℤ → Exec Err (Unit {0})
  update_node_health id status version last_seen =
      change id (replace_health status version last_seen)

  unfoldable pub update_node_cert : String → String → Exec Err (Unit {0})
  update_node_cert id cert_pem = change id (λ r. record r { cert_pem = some cert_pem })

  unfoldable pub update_node_config : String → String → Exec Err (Unit {0})
  update_node_config id config_json = change id (λ r. record r { config_json = some config_json })

  unfoldable pub delete_node : String → Exec Err (Unit {0})
  unfolding remove_node
  delete_node id = check_affected (statement (remove_node id))
