-- ===== src/Xmqd/Clients.antt =====
-- xmqd/channel.go: the clients of a channel, and how a channel ends. A client is a value of `C`; each
-- call runs alone.
pub mod Limits
pub mod Tests
use xmq.Base.{
  ℕ, Bool, true, false, ◌&&◌, ◌||◌, not, List, [], ◌∷◌, leb, ◌==◌, length, if◌then◌else◌,
}
use xmq.Js.Text.{Text, lit, ◌===◌}
use xmq.Xmqlookupd.Dict.{has, put, delete}

-- `deleter` says that the callback which deletes the channel was given to its `sync.Once`.
pub record ChannelClients (C : Type 0) : Type 0 where
  pub clients : List (Text × C)
  pub ephemeral : Bool
  pub exit_flag : Bool
  pub deleter : Bool

abbrev pub no_clients : {C : Type 0} → Bool → ChannelClients C
no_clients ephemeral = record {
  clients = [];
  ephemeral = ephemeral;
  exit_flag = false;
  deleter = false;
}

-- What a call returns: nothing, or an error.
pub data Result : Type 0 where
  fine : Result
  exiting : Result
  over_limit : ℕ → Result

-- The calls, in any order. The callback deletes the channel some time after it was given out.
pub data ClientCall (C : Type 0) : Type 0 where
  add_call : Text → C → ClientCall C
  remove_call : Text → ClientCall C
  exit_call : ClientCall C

module _ {C : Type 0} where
  -- `limit` is `MaxChannelConsumers`.
  unfoldable pub add_client : ℕ → Text → C → ChannelClients C → Result × ChannelClients C
  add_client limit id client c =
      if c.exit_flag
      then (exiting, c)
      else if has ◌===◌ id c.clients
      then (fine, c)
      else if not (limit == 0) && leb limit (length c.clients)
      then (over_limit limit, c)
      else (fine, record c { clients = put ◌===◌ id client c.clients })

  unfoldable pub remove_client : Text → ChannelClients C → ChannelClients C
  remove_client id c =
      let left = delete ◌===◌ id c.clients in
      if c.exit_flag
      then c
      else if not (has ◌===◌ id c.clients)
      then c
      else record c { clients = left; deleter = ((length left == 0) && c.ephemeral) || c.deleter }

  -- What `exit` does to the channel before it closes the clients and the storage.
  unfoldable pub exit : ChannelClients C → Result × ChannelClients C
  exit c = if c.exit_flag then (exiting, c) else (fine, record c { exit_flag = true })

  unfoldable pub client_step : ℕ → ClientCall C → ChannelClients C → ChannelClients C
  client_step limit (add_call id client) c = (add_client limit id client c).1
  client_step limit (remove_call id) c = remove_client id c
  client_step limit exit_call c = (exit c).1

  unfoldable pub client_steps : ℕ → List (ClientCall C) → ChannelClients C → ChannelClients C
  client_steps limit [] c = c
  client_steps limit (x ∷ xs) c = client_steps limit xs (client_step limit x c)
