-- ===== src/Api/Nodes/Detail.antt =====
-- `getNodeDetail` and `servicePortOf` of internal/api/nodes.go.
use Prim.Native.String.{String, [], ◌∷◌}
use Prim.Native.Char.{code}
use node_panel.Prelude.{ℕ, ◌+◌, ◌-◌, ◌*◌, ◌^◌, Option, none, some, ◌&&◌, leb, eqb, if◌then◌else◌}
use node_panel.Prelude.Int.{ℤ, pos, negsuc, leb_ℤ}
use node_panel.Prelude.Text.{is_empty}
use node_panel.Domain.{Node}
use node_panel.Wire.{Url}
use node_panel.Runtime.{Env}
use node_panel.Runtime.Exec.{◌>>=◌, return}
use node_panel.Store.Nodes.{default_grpc_port}
use node_panel.NodeClient.Pinning.{is_pinned}
use node_panel.Api.Response.{Handler, respond, node_detail, NodeDetailResponse}
use node_panel.Api.Connection.{host_of, grpc_address_for}
use node_panel.Api.Nodes.Core.{node_or_404}

-- the number that a text of digits stands for, read after the value `acc`
unfoldable pub digits_from : ℕ → String → Option ℕ
digits_from acc [] = some acc
digits_from acc (c ∷ s) =
    let rest = digits_from (10 * acc + (code c - b'0')) s in
    if leb b'0' (code c) && leb (code c) b'9' then rest else none

abbrev digits : String → Option ℕ
digits [] = none
digits (c ∷ s) = digits_from 0 (c ∷ s)

abbrev at_most : ℕ → Option ℕ → Option ℕ
at_most top none = none
at_most top (some n) = if leb n top then some n else none

abbrev minus : Option ℕ → Option ℤ
minus none = none
minus (some n) = if eqb n 0 then some (pos 0) else some (negsuc (n - 1))

abbrev plus : Option ℕ → Option ℤ
plus none = none
plus (some n) = some (pos n)

-- `strconv.Atoi`
unfoldable pub atoi : String → Option ℤ
unfolding digits_from
atoi [] = none
atoi (c ∷ s) =
    if eqb (code c) b'-'
    then minus (at_most (2 ^ 63) (digits s))
    else if eqb (code c) b'+'
    then plus (at_most (2 ^ 63 - 1) (digits s))
    else plus (at_most (2 ^ 63 - 1) (digits (c ∷ s)))

abbrev pub default_service_port : ℤ
default_service_port = pos 8090

abbrev port_or : Option ℤ → ℤ
port_or none = default_service_port
port_or (some p) = p

module _ ⦃env : Env⦄ where
  abbrev port_in : Option Url → ℤ
  port_in none = default_service_port
  port_in (some u) = if is_empty u.port then default_service_port else port_or (atoi u.port)

  unfoldable pub service_port_of : String → ℤ
  unfolding atoi
  service_port_of address = port_in (env.parse_url address)

  abbrev pub detail : Node → ℤ → NodeDetailResponse
  detail n grpc_port = record {
    id = n.id;
    name = n.name;
    host = host_of n.address;
    address = n.address;
    service_port = service_port_of n.address;
    grpc_address = grpc_address_for n.address grpc_port;
    grpc_port = grpc_port;
    protocol = "grpc";
    master_key = n.master_key;
    core_key = n.core_key;
    cert_pem = n.cert_pem;
    status = n.status;
    version = n.version;
    last_seen_at = n.last_seen_at;
    created_at = n.created_at;
    host_info = n.host_info;
    cert_pinned = is_pinned n.cert_pem;
  }

  unfoldable pub get_node_detail : String → Handler
  unfolding is_pinned service_port_of host_of grpc_address_for
  get_node_detail id = do
    n ← node_or_404 id
    return (
        respond 200 (
          node_detail
            (detail n (if leb_ℤ n.grpc_port (pos 0) then default_grpc_port else n.grpc_port))))
