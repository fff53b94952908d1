-- ===== src/Api/Connection.antt =====
-- `subscriptionConnection` of internal/api/subscriptions.go with the addresses that customers get,
-- and the payload behind the public page of internal/api/subpage.go.
pub mod Shown
pub mod Asked
use node_panel.Prelude.{ℕ, String, Option, none, some, List, ◌&&◌, if◌then◌else◌}
use node_panel.Prelude.Int.{ℤ, pos, pos_part, leb_ℤ, ltb_ℤ, sub64, div64}
use node_panel.Prelude.Text.{◌<>◌, is_empty, decimal, before_code}
use node_panel.Domain.{Node, Subscription}
use node_panel.Wire.{Url}
use node_panel.Runtime.{Env}
use node_panel.Runtime.Exec.{
  Err, Result, ok, err, Exec, ◌>>=◌, ◌>>◌, return, or_else, attempt, unix_now,
}
use node_panel.Store.Nodes.{get_node, default_grpc_port}
use node_panel.Store.Subscriptions.{get_subscription_by_token}
use node_panel.Api.Response.{
  Response, Handler, respond, write_error, connection, sub_info, SubInfoResponse,
}
use node_panel.Api.Access.{after_prefix}
use node_panel.Api.Inbounds.{resolve_inbounds}
use node_panel.Api.Subscriptions.{load_sub_and_node}

abbrev or_whole : String → Option String → String
or_whole s none = s
or_whole s (some rest) = rest

-- `strings.TrimPrefix`
abbrev trim_prefix : String → String → String
trim_prefix p s = or_whole s (after_prefix p s)

-- the host of an address that does not parse as a URL with one
unfoldable pub plain_host : String → String
unfolding after_prefix
plain_host address =
    before_code b':' (before_code b'/' (trim_prefix "http://" (trim_prefix "https://" address)))

module _ ⦃env : Env⦄ where
  abbrev host_in : String → Option Url → String
  host_in address none = plain_host address
  host_in address (some u) = if is_empty u.host then plain_host address else u.hostname

  unfoldable pub host_of : String → String
  host_of address = host_in address (env.parse_url address)

  abbrev port_or_default : ℤ → ℤ
  port_or_default port = if leb_ℤ port (pos 0) then default_grpc_port else port

  unfoldable pub grpc_address_for : String → ℤ → String
  unfolding host_of
  grpc_address_for address grpc_port =
      host_of address <> ":" <> decimal (pos_part (port_or_default grpc_port))

  unfoldable pub subscription_connection : String → Handler
  unfolding load_sub_and_node grpc_address_for
  subscription_connection id = do
    (sub, node) ← load_sub_and_node id
    inbounds ← resolve_inbounds node
    return (
        respond 200 (
          connection (record {
            node_name = node.name;
            grpc_address = grpc_address_for node.address node.grpc_port;
            protocol = "grpc";
            cert_pem = node.cert_pem;
            inbounds = inbounds;
            sub_token = sub.sub_token;
            note =
                "Add this node in your PasarGuard panel with the gRPC address, protocol grpc, the certificate, and your customer API key. Replicate the inbound(s) exactly (port/protocol/network/TLS/SNI) so user links work.";
            host_info = node.host_info;
          })))

  abbrev remaining : Subscription → ℤ
  remaining sub =
      let r = sub64 sub.quota_bytes sub.used_bytes in if ltb_ℤ (pos 0) r then r else pos 0

  abbrev days_left : ℤ → ℤ → ℤ
  days_left end_at now = if ltb_ℤ now end_at then div64 (sub64 end_at now) (pos 86400) else pos 0

  abbrev shown_status : Subscription → ℤ → String
  shown_status sub now =
      if ltb_ℤ (pos 0) sub.end_at && leb_ℤ sub.end_at now then "expired" else sub.status

  -- the payload before the node is looked up
  abbrev pub stored_info : Subscription → ℤ → SubInfoResponse
  stored_info sub now = record {
    node_name = "";
    status = shown_status sub now;
    quota_bytes = sub.quota_bytes;
    used_bytes = sub.used_bytes;
    remain_bytes = remaining sub;
    end_at = sub.end_at;
    days_left = days_left sub.end_at now;
    grpc_address = "";
    protocol = "grpc";
    cert_pem = "";
    api_key = sub.api_key;
    inbounds = "{\"inbounds\":[]}";
  }

  abbrev pub with_node : SubInfoResponse → Result Err Node → Exec Response SubInfoResponse
  with_node info (err e) = return info
  with_node info (ok node) = do
    inbounds ← resolve_inbounds node
    return (record info {
      node_name = node.name;
      cert_pem = node.cert_pem;
      grpc_address = grpc_address_for node.address node.grpc_port;
      inbounds = inbounds;
    })

  -- `loadSubInfoByToken`, with the answer for a token that is not there
  unfoldable pub load_sub_info_by_token : String → Exec Response SubInfoResponse
  unfolding grpc_address_for
  load_sub_info_by_token token = do
    sub ← or_else (get_subscription_by_token token) (λ _. write_error 404 "subscription not found")
    now ← unix_now
    node ← attempt (get_node sub.node_id)
    with_node (stored_info sub now) node

  unfoldable pub sub_info_handler : String → Handler
  unfolding load_sub_info_by_token
  sub_info_handler token = do
    info ← load_sub_info_by_token token
    return (respond 200 (sub_info info))
