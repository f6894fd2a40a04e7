-- ===== src/Models/Tests.antt =====
-- The models at concrete responses.
use xmq.Base.{◌≡◌, ◌≢◌, ◌↔◌, refl, true, arith}
use xmq.Js.Text.{lit, ◌===◌}
use xmq.Js.Decimal.{show}
use xmq.Js.Uri.{encode_uri_component}
use xmq.AppState.{api_path}
use xmq.Samples.{sample_globals}
use xmq.Models.{channel_url, NodeEntry, ClientEntry, Peer, parse_node, broadcast_address_http}
use xmq.Models.Resources.{channel_named, address-injective}
use xmq.Models.Parse.{parse_node_lem}

address-injective_example :
    channel_named (lit "a/b") (lit "c") ≡ channel_named (lit "a/b") (lit "c")
unfolding channel_url encode_uri_component api_path ◌===◌
address-injective_example =
    address-injective sample_globals (channel_named (lit "a/b") (lit "c"))
      (channel_named (lit "a/b") (lit "c")) (lit "/xmq/api/topics/a%2Fb/c")
      (omega arith, omega arith, λ e. cc) (omega arith, omega arith, λ e. cc) refl refl

-- An entry whose address has colons of its own.
abbrev sixth : NodeEntry
sixth = record { node = lit "fe80::1:4150"; hostname = lit "h" }

parse_node_lem_example :
    ((parse_node (λ s. s) sixth).hostname_port ≡ lit "h:4150")
    × (((parse_node (λ s. s) sixth).show_broadcast_address ≡ true) ↔ (lit "h" ≢ lit "fe80::1"))
parse_node_lem_example =
    parse_node_lem (λ s. s) sixth (lit "fe80::1") (lit "4150") refl (omega arith)

abbrev consumer : ClientEntry
consumer = record {
  client_id = lit "h";
  hostname = lit "h.example.org";
  remote_address = lit "10.0.0.1:5000";
}

abbrev peer : Peer
peer = record { broadcast_address = lit "fe80::1"; http_port = 4151 }

test_http : broadcast_address_http peer ≡ lit "[fe80::1]:4151"
unfolding broadcast_address_http show
test_http = refl
