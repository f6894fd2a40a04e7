-- ===== src/Xmqlookupd/History/Pointers.antt =====
-- The pointers that the list of nodes compares.
use xmq.Base.{
  ℕ, ◌-◌, ltb, ◌≡◌, refl, ap, sym, ◌∙◌, Bool, true, false, ◌&&◌, ◌||◌, not, List, [], ◌∷◌, map, any,
  all, Bool-cases, inl, inr, ◌==◌, arith,
}
use xmq.Js.Text.{Text, lit, ◌===◌, ===_iff}
use xmq.Xmqlookupd.Dict.{MapOrder, any-keep}
use xmq.Xmqlookupd.Registrations.{
  Registration, Producer, find_producers, filter_by_active, is_tombstoned,
}
use xmq.Xmqlookupd.Registrations.Abstract.{set_raft_state_op, step}
use xmq.Xmqlookupd.Registrations.Keyed.{AllDb, step-AllDb}
use xmq.Xmqlookupd.Registrations.Absent.{any-find_producers}
use xmq.Xmqlookupd.Daemon.{Lookupd, start, client_key}
use xmq.Xmqlookupd.Admin.{Options, Node, tombstone_of, node_of, state_of, nodes_of, get_nodes}
use xmq.Xmqlookupd.History.{Call, serve_all}
use xmq.Xmqlookupd.History.Copies.{IsCopy, served-Copies, AllDb-weaken, change-Allowed}

tombstone_of_none :
    (struck : Producer → Bool) (ref : ℕ) (ps : List Producer)
    → any (λ (p : Producer). p.ref == ref) ps ≡ false
    → tombstone_of struck ref ps ≡ false
unfolding tombstone_of
tombstone_of_none struck ref [] h = refl
tombstone_of_none struck ref (p ∷ ps) h = ground (arith, h, tombstone_of_none struck ref ps)

-- No tombstone is shown.
abbrev pub unmarked : Node → Bool
unmarked n = all not n.tombstones

all-map :
    {A : Type 0} (f : A → Bool) (xs : List A) → ((x : A) → f x ≡ false) → all not (map f xs) ≡ true
all-map f [] h = refl
all-map f (x ∷ xs) h = ground (arith, h x, all-map f xs h)

-- A producer whose peer is shown
active_node : (Text → ℕ) → ℕ → Options → Producer → Bool
unfolding is_tombstoned
active_node clock now o p = not (
    ltb o.inactive_producer_timeout (now - p.info.last_update)
    || is_tombstoned (clock p.info.id) 0 p)

module _ (order : MapOrder) (clock : Text → ℕ) (o : Options) (owner : ℕ → Registration) where
  -- A pointer that was not given out for a client.
  elsewhere : Producer → Bool
  elsewhere p = not ((owner p.ref).category === lit "client")

  module _ (l : Lookupd) (h : AllDb (IsCopy l.peers l.refs owner) l.db) where
    not_client :
        (p : Producer)
        → elsewhere p ≡ false
        → (k : Registration) (e : Text × Producer) → IsCopy l.peers l.refs owner k e
        → ((lit "topic" === k.category) && (e.1.ref == p.ref)) ≡ false
    unfolding elsewhere
    not_client p client k e c = elim (Bool-cases (lit "topic" === k.category)) [
      | inr e1 ↦ ground (arith, e1)
      | inl topic ↦ elim (Bool-cases (e.1.ref == p.ref)) [
        | inr other ↦ ground (arith, topic, other)
        | inl same ↦
            let refs : e.1.ref ≡ p.ref = ground (arith, same) in
            let at_home : ((owner p.ref).category === lit "client") ≡ true =
              ground (arith, client) in
            let chain : lit "topic" ≡ lit "client" =
              (===_iff (lit "topic") k.category).0 topic
              ∙ (sym (ap (λ (r : Registration). r.category) c.owned)
                  ∙ (ap (λ r. (owner r).category) refs
                      ∙ (===_iff (owner p.ref).category (lit "client")).0 at_home)) in
            absurd (cc chain)
      ]
    ]

    client_at_home :
        (k : Registration) (e : Text × Producer)
        → IsCopy l.peers l.refs owner k e
        → ((lit "client" === k.category) && elsewhere e.1) ≡ false
    unfolding elsewhere
    client_at_home k e c = elim (Bool-cases (lit "client" === k.category)) [
      | inr e1 ↦ ground (arith, e1)
      | inl here ↦
          let at_home : ((owner e.1.ref).category === lit "client") ≡ true =
            ap (λ (r : Registration). r.category === lit "client") c.owned
            ∙ (===_iff k.category (lit "client")).1
                (sym ((===_iff (lit "client") k.category).0 here)) in
          ground (arith, here, at_home)
    ]

    node_of-unmarked :
        (p : Producer) → elsewhere p ≡ false → unmarked (node_of order clock o l.db p) ≡ true
    unfolding node_of
    node_of-unmarked p client = all-map _ _ λ t. tombstone_of_none _ p.ref _ (
        any-find_producers order (λ q. q.ref == p.ref) (lit "topic") t [] l.db
          (AllDb-weaken _ _ (not_client p client) l.db h))

  nodes_of-unmarked :
      (ps : List Producer) (l : Lookupd)
      → AllDb (IsCopy l.peers l.refs owner) l.db
      → any elsewhere ps ≡ false
      → all unmarked (nodes_of order clock o ps l).0 ≡ true
  unfolding nodes_of step
  nodes_of-unmarked [] l h e = refl
  nodes_of-unmarked (p ∷ ps) l h e =
      let op = set_raft_state_op client_key p.info.id (state_of p l) in
      ground (
        arith,
        e,
        node_of-unmarked l h p (ground (arith, e)),
        nodes_of-unmarked ps _
            (step-AllDb (IsCopy l.peers l.refs owner) op l.db
              (change-Allowed l.peers l.refs owner op tt) h)
            (ground (arith, e)),
      )

-- However the topics of a daemon were tombstoned, the list of nodes shows no tombstone: it compares the
-- pointers of the copies that `Identify` and `Register` make, which are never the same.
pub nodes_unmarked :
    (order : MapOrder) (cs : List Call) (clock : Text → ℕ) (now : ℕ) (o : Options)
    → all unmarked (get_nodes order clock now o (serve_all order cs start)).0 ≡ true
unfolding get_nodes filter_by_active active_node
nodes_unmarked order cs clock now o =
    let l = serve_all order cs start in
    let c = served-Copies order cs in
    let out = elsewhere order clock o c.owner in
    nodes_of-unmarked order clock o c.owner _ l c.copies (
      any-keep out _ (find_producers order (lit "client") [] [] l.db)
      ∙ any-find_producers order (λ p. active_node clock now o p && out p) (lit "client") [] [] l.db
          (AllDb-weaken _ _
            (λ k e h. ground (arith, client_at_home order clock o c.owner l c.copies k e h)) l.db
            c.copies))
