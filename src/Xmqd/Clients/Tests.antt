-- ===== src/Xmqd/Clients/Tests.antt =====
-- Three clients at a channel for two.
use xmq.Base.{ℕ, ◌≡◌, refl, true, List, [], ◌∷◌, length}
use xmq.Js.Text.{lit, ◌===◌}
use xmq.Xmqd.Clients.{
  ClientCall, add_call, remove_call, no_clients, add_client, remove_client, client_step,
  client_steps,
}
use xmq.Xmqd.Clients.Limits.{Orderly, client_steps-Orderly}

abbrev calls : List (ClientCall ℕ)
calls =
    add_call (lit "a") 1 ∷ add_call (lit "b") 2 ∷ add_call (lit "c") 3 ∷ remove_call (lit "a") ∷ []

client_steps-Orderly_example : Orderly 2 (client_steps 2 calls (no_clients true))
client_steps-Orderly_example = client_steps-Orderly 2 true calls

-- The third client is not let in.
one_left : length (client_steps 2 calls (no_clients true)).clients ≡ 1
unfolding client_steps client_step add_client remove_client ◌===◌
one_left = refl
