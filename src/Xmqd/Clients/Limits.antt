-- ===== src/Xmqd/Clients/Limits.antt =====
-- What holds of the clients of a channel after any calls.
use xmq.Base.{
  ℕ, suc, ◌≤◌, ◌≡◌, ◌≢◌, refl, Bool, true, false, ◌&&◌, not, List, [], ◌∷◌, leb, ◌==◌, length,
  if_elim, arith, false≢true,
}
use xmq.Js.Text.{Text, ◌===◌, ===_iff}
use xmq.Xmqlookupd.Dict.{has, put, delete, Distinct, Distinct-put, Distinct-delete}
use xmq.Xmqd.Clients.{
  ChannelClients, no_clients, Result, add_client, remove_client, exit, ClientCall, add_call,
  remove_call, exit_call, client_step, client_steps,
}

length-put_new :
    {C : Type 0} (id : Text) (client : C) (d : List (Text × C))
    → has ◌===◌ id d ≡ false
    → length (put ◌===◌ id client d) ≡ suc (length d)
length-put_new id client [] h = refl
length-put_new id client ((j, x) ∷ d) h =
    ground (arith, h, length-put_new id client d (ground (arith, h)))

length-delete :
    {C : Type 0} (id : Text) (d : List (Text × C)) → length (delete ◌===◌ id d) ≤ length d
length-delete id [] = omega arith
length-delete id ((j, x) ∷ d) = ground (arith, length-delete id d)

-- No id has two clients, there are no more clients than the limit allows, and only an ephemeral channel
-- is deleted for the want of clients.
pub record Orderly {C : Type 0} (limit : ℕ) (c : ChannelClients C) : Type 0 where
  pub distinct : Distinct ◌===◌ c.clients
  pub within : limit ≢ 0 → length c.clients ≤ limit
  pub deleted : c.deleter ≡ true → c.ephemeral ≡ true

module _ {C : Type 0} (limit : ℕ) where
  step-Orderly :
      (x : ClientCall C) (c : ChannelClients C)
      → Orderly limit c
      → Orderly limit (client_step limit x c)
  unfolding client_step add_client remove_client exit
  step-Orderly (add_call id client) c h =
      if_elim (λ (r : Result × ChannelClients C). Orderly limit r.1) c.exit_flag _ _ (λ _. h)
        (λ _.
          if_elim (λ (r : Result × ChannelClients C). Orderly limit r.1) (has ◌===◌ id c.clients) _
            _ (λ _. h)
            (λ new.
              if_elim (λ (r : Result × ChannelClients C). Orderly limit r.1)
                (not (limit == 0) && leb limit (length c.clients)) _ _ (λ _. h)
                (λ room. record {
                  distinct = Distinct-put ◌===◌ ===_iff id client c.clients h.distinct;
                  within = λ some_limit.
                      ground (arith, room, some_limit, length-put_new id client c.clients new);
                  deleted = h.deleted;
                })))
  step-Orderly (remove_call id) c h =
      if_elim (Orderly limit) c.exit_flag _ _ (λ _. h)
        (λ _.
          if_elim (Orderly limit) (not (has ◌===◌ id c.clients)) _ _ (λ _. h)
            (λ there. record {
              distinct = Distinct-delete ◌===◌ ===_iff id c.clients h.distinct;
              within = λ some_limit. omega (arith, h.within some_limit, length-delete id c.clients);
              deleted = λ e. ground (arith, e, h.deleted);
            }))
  step-Orderly exit_call c h =
      if_elim (λ (r : Result × ChannelClients C). Orderly limit r.1) c.exit_flag _ _ (λ _. h)
        (λ _. record { distinct = h.distinct; within = h.within; deleted = h.deleted })

  steps-Orderly :
      (xs : List (ClientCall C)) (c : ChannelClients C)
      → Orderly limit c
      → Orderly limit (client_steps limit xs c)
  unfolding client_steps
  steps-Orderly [] c h = h
  steps-Orderly (x ∷ xs) c h = steps-Orderly xs (client_step limit x c) (step-Orderly x c h)

-- After any calls on a channel without clients, no id has two clients, there are no more clients than
-- `MaxChannelConsumers` if this is not 0, and the channel was given up for deletion only if it is
-- ephemeral.
pub client_steps-Orderly :
    {C : Type 0} (limit : ℕ) (ephemeral : Bool) (xs : List (ClientCall C))
    → Orderly limit (client_steps limit xs (no_clients ephemeral))
client_steps-Orderly limit ephemeral xs =
    steps-Orderly limit xs (no_clients ephemeral)
      (record { distinct = tt; within = λ h. omega arith; deleted = λ e. absurd (false≢true e) })
