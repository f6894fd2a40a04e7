-- ===== src/Models.antt =====
-- xmqadmin/static/js/models and collections: the addresses of a topic, a channel and a node, and what
-- they make of a response. `lower` stands for `toLowerCase`, whose tables are not part of the program.
mod Tests
pub mod Addresses
pub mod Resources
pub mod Parse
pub mod Hosts
use xmq.Base.{
  ℕ, Bool, true, false, ◌&&◌, not, Option, none, some, List, [], ◌∷◌, ◌++◌, map, if◌then◌else◌,
  ◌>>=◌,
}
use xmq.Js.Text.{Text, lit, ◌===◌, split, join, includes, last_of, but_last}
use xmq.Js.Uri.{encode_uri_component}
use xmq.Js.Decimal.{show}
use xmq.Vendor.{Underscore}
use xmq.AppState.{Globals, api_path}

-- The attributes of a topic's and a channel's model that the program sets.
pub record Topic : Type 0 where
  pub name : Text
  pub is_admin : Bool

pub record Channel : Type 0 where
  pub topic : Text
  pub name : Text
  pub is_admin : Bool

-- `none` is the URIError that `encodeURIComponent` throws.
unfoldable pub topic_url : Globals → Topic → Option Text
topic_url g t = do name ← encode_uri_component t.name; some (api_path g (lit "/topics/" ++ name))

unfoldable pub channel_url : Globals → Channel → Option Text
channel_url g c = do
  topic ← encode_uri_component c.topic
  name ← encode_uri_component c.name
  some (api_path g (lit "/topics/" ++ (topic ++ (lit "/" ++ name))))

unfoldable pub node_url_root : Globals → Text
node_url_root g = api_path g (lit "/nodes")

unfoldable pub nodes_url : Globals → Text
nodes_url g = api_path g (lit "/nodes")

unfoldable pub topics_url : Globals → Text
topics_url g = api_path g (lit "/topics")

-- An entry of `response['nodes']`, and what `parse` adds to it.
pub record NodeEntry : Type 0 where
  pub node : Text
  pub hostname : Text

pub record ParsedNode : Type 0 where
  pub entry : NodeEntry
  pub show_broadcast_address : Bool
  pub hostname_port : Text

-- An entry of `response['clients']`.
pub record ClientEntry : Type 0 where
  pub client_id : Text
  pub hostname : Text
  pub remote_address : Text

pub record ParsedClient : Type 0 where
  pub entry : ClientEntry
  pub show_client_id : Bool
  pub hostname_port : Text

-- `e || []`
abbrev or_empty {ℓ} : {A : Type ℓ} → Option (List A) → List A
or_empty none = []
or_empty (some xs) = xs

first_of_parts : List Text → Text
first_of_parts [] = []
first_of_parts (p ∷ _) = p

module _ (lower : Text → Text) where
  unfoldable pub parse_node : NodeEntry → ParsedNode
  parse_node e =
      let parts = split b':' e.node in
      let port = last_of [] parts in
      let address = join (lit ":") (but_last parts) in
      record {
        entry = e;
        show_broadcast_address = not (lower e.hostname === lower address);
        hostname_port = e.hostname ++ (lit ":" ++ port);
      }

  unfoldable pub parse_client : ClientEntry → ParsedClient
  unfolding first_of_parts
  parse_client e =
      let short = first_of_parts (split b'.' e.hostname) in
      let port = last_of [] (split b':' e.remote_address) in
      record {
        entry = e;
        show_client_id =
            not (lower e.client_id === lower short) && not (lower e.client_id === lower e.hostname);
        hostname_port = e.hostname ++ (lit ":" ++ port);
      }

  -- `parse` of a topic, on `response['nodes']`
  unfoldable pub topic_parse : Underscore → Option (List NodeEntry) → List ParsedNode
  topic_parse u nodes = u.each (or_empty nodes) parse_node

  -- `parse` of a channel, on `response['nodes']` and `response['clients']`
  unfoldable pub channel_parse :
      Underscore
      → Option (List NodeEntry)
      → Option (List ClientEntry)
      → List ParsedNode × List ParsedClient
  channel_parse u nodes clients =
      (u.each (or_empty nodes) parse_node, u.each (or_empty clients) parse_client)

-- An entry of the list of nodes, and `broadcast_address_http`, which `parse` adds to it.
pub record Peer : Type 0 where
  pub broadcast_address : Text
  pub http_port : ℕ

unfoldable pub broadcast_address_http : Peer → Text
broadcast_address_http n =
    let jaddr =
      if includes b':' n.broadcast_address
      then lit "[" ++ (n.broadcast_address ++ lit "]")
      else n.broadcast_address in
    jaddr ++ (lit ":" ++ show n.http_port)

unfoldable pub nodes_parse : List Peer → List (Peer × Text)
unfolding broadcast_address_http
nodes_parse [] = []
nodes_parse (n ∷ ns) = (n, broadcast_address_http n) ∷ nodes_parse ns

-- `parse` of the list of topics: a model's name for each name
unfoldable pub topics_parse : Underscore → List Text → List Text
topics_parse u topics = u.each topics (λ name. name)
