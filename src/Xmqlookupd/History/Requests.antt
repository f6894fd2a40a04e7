-- ===== src/Xmqlookupd/History/Requests.antt =====
-- The requests of xmqlookupd/http.go as moves.
use xmq.Base.{ℕ, Option, none, some, List, [], ◌∷◌, Bool-cases, Option-cases, inl, inr}
use xmq.Js.Text.{Text, lit}
use xmq.Protocol.{is_valid_topic_name, is_valid_channel_name}
use xmq.Xmqlookupd.Dict.{MapOrder}
use xmq.Xmqlookupd.Registrations.{Registration, Producer, RegistrationDb}
use xmq.Xmqlookupd.Registrations.Abstract.{set_raft_state_op, step}
use xmq.Xmqlookupd.Daemon.{Lookupd, client_key}
use xmq.Xmqlookupd.Admin.{
  Args, Answer, failed, answered, Options, nodes_of, remove_registrations, with_topic, with_channel,
}
use xmq.Xmqlookupd.History.{answered_db}
use xmq.Xmqlookupd.History.Moves.{Moves, stay, Moves-trans, changed, remove_registrations-Moves}

module _ (l : Lookupd) where
  pub with_topic-Moves :
      (args : Option Args) (f : Args → Text → Answer RegistrationDb)
      → ((a : Args) (topic : Text) → Moves l (answered_db l (f a topic)))
      → Moves l (answered_db l (with_topic args f))
  unfolding with_topic
  with_topic-Moves none f h = stay
  with_topic-Moves (some a) f h = elim (Option-cases a.topic) [
    | inl e ↦ rw e stay
    | inr (topic, e) ↦ rw e (h a topic)
  ]

  pub with_channel-Moves :
      (args : Option Args) (f : Text → Text → Answer RegistrationDb)
      → ((topic channel : Text) → Moves l (answered_db l (f topic channel)))
      → Moves l (answered_db l (with_channel args f))
  unfolding with_channel
  with_channel-Moves args f h = with_topic-Moves args _ λ a topic.
      elim (Bool-cases (is_valid_topic_name topic)) [
        | inr bad ↦ rw bad stay
        | inl good ↦ elim (Option-cases a.channel) [
          | inl e ↦ rw (good, e) stay
          | inr (channel, e) ↦ elim (Bool-cases (is_valid_channel_name channel)) [
            | inr bad ↦ rw (good, e, bad) stay
            | inl fine ↦ rw (good, e, fine) (h topic channel)
          ]
        ]
      ]

-- The removal of what was found, if anything was.
pub found-Moves :
    (l : Lookupd) (rr : List Registration)
    → Moves l (
        answered_db l (elim rr as (λ _. Answer RegistrationDb) [
          | [] ↦ failed 404 (lit "CHANNEL_NOT_FOUND")
          | r ∷ rest ↦ answered (remove_registrations (r ∷ rest) l.db)
        ]))
found-Moves l [] = stay
found-Moves l (r ∷ rr) = remove_registrations-Moves l (r ∷ rr) l.db

pub nodes_of-Moves :
    (order : MapOrder) (clock : Text → ℕ) (o : Options) (ps : List Producer) (l : Lookupd)
    → Moves l (nodes_of order clock o ps l).1
unfolding nodes_of step
nodes_of-Moves order clock o [] l = stay
nodes_of-Moves order clock o (p ∷ ps) l =
    Moves-trans (changed l (set_raft_state_op client_key p.info.id _) tt l.db)
      (nodes_of-Moves order clock o ps _)
