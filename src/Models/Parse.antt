-- ===== src/Models/Parse.antt =====
-- What `parse` makes of the nodes and clients of a topic or a channel.
use xmq.Base.{◌≡◌, ◌≢◌, ◌↔◌, refl, ◌∙◌, ap, true, [], ◌∷◌, ◌++◌, arith}
use xmq.Js.Text.{Text, lit, ===_iff, split, last_of}
use xmq.Js.Text.Split.{Lacks, split_last, split-cons}
use xmq.Models.{NodeEntry, parse_node, ClientEntry, parse_client, first_of_parts}

module _ (lower : Text → Text) where
  -- A node named by an address and a port: the port follows the hostname, also where the address has
  -- colons of its own, and the address is shown exactly when it differs from the hostname by more
  -- than case.
  pub parse_node_lem :
      (e : NodeEntry) (address port : Text)
      → e.node ≡ address ++ b':' ∷ port
      → Lacks b':' port
      → ((parse_node lower e).hostname_port ≡ e.hostname ++ (lit ":" ++ port))
        × (((parse_node lower e).show_broadcast_address ≡ true)
            ↔ (lower e.hostname ≢ lower address))
  unfolding parse_node
  parse_node_lem e address port is_node plain =
      let (last, first) = split_last b':' address port plain in
      rw (is_node, last, first) (refl, ground (arith, ===_iff (lower e.hostname) (lower address)))

  -- Of a client with a hostname of two labels or more and an address with a port, the port follows the
  -- hostname, and its id is shown exactly when it is neither the
  -- hostname nor the hostname's first label, up to case.
  parse_client_lem :
      (e : ClientEntry) (label rest address port : Text)
      → e.hostname ≡ label ++ b'.' ∷ rest
      → Lacks b'.' label
      → e.remote_address ≡ address ++ b':' ∷ port
      → Lacks b':' port
      → ((parse_client lower e).hostname_port ≡ e.hostname ++ (lit ":" ++ port))
        × (((parse_client lower e).show_client_id ≡ true)
            ↔ ((lower e.client_id ≢ lower label) × (lower e.client_id ≢ lower e.hostname)))
  unfolding parse_client
  parse_client_lem e label rest address port is_host dotless is_remote plain =
      let short : first_of_parts (split b'.' e.hostname) ≡ label =
        ap (λ h. first_of_parts (split b'.' h)) is_host
        ∙ ap first_of_parts (split-cons b'.' label rest dotless) in
      let last : last_of [] (split b':' e.remote_address) ≡ port =
        ap (λ r. last_of [] (split b':' r)) is_remote ∙ (split_last b':' address port plain).0 in
      rw (short, last)
        (
          refl,
          ground (
            arith,
            ===_iff (lower e.client_id) (lower label),
            ===_iff (lower e.client_id) (lower e.hostname),
          ),
        )
