-- ===== src/Xmqlookupd/History/Struck.antt =====
-- A tombstone takes a daemon out of the answers to consumers.
use xmq.Base.{
  ℕ, ◌+◌, ◌-◌, ◌<◌, ◌≡◌, refl, ap, sym, subst, ◌∙◌, Bool, true, false, ◌&&◌, ◌||◌, not, Option,
  some, List, [], ◌∷◌, map, any, All, Bool-cases, Option-cases, inl, inr, ltb, lt→ltb, ◌≤◌, arith,
}
use xmq.Js.Text.{Text, lit, ◌===◌, ===_iff}
use xmq.Xmqlookupd.Dict.{get}
use xmq.Xmqlookupd.Registrations.{
  Registration, PeerInfo, Producer, RegistrationDb, producers_of, tombstone,
}
use xmq.Xmqlookupd.Dict.{All-get, MapOrder, any-found, found-any, any-map}
use xmq.Xmqlookupd.Registrations.{
  need_filter, producer_map_to_slice, find_producers, filter_by_active, is_tombstoned,
}
use xmq.Xmqlookupd.Registrations.Abstract.{add_producer_op, step}
use xmq.Xmqlookupd.Registrations.Absent.{any-slice}
use xmq.Xmqlookupd.Registrations.Once.{OnceDb, step-OnceDb, producers_of-Once}
use xmq.Xmqlookupd.Registrations.Keyed.{All-producers_of}
use xmq.Xmqlookupd.Daemon.{Lookupd, start, topic_key, new_producer, add_copy}
use xmq.Xmqlookupd.History.{Call, tombstone_call, serve, serve_all}
use xmq.Xmqlookupd.History.Moves.{Move, change, copy, meet, Moves, stay, onward}
use xmq.Xmqlookupd.History.Served.{serve-Moves, serve_all-Moves}
use xmq.Xmqlookupd.History.Copies.{IsCopy, Copies, served-Copies}
use xmq.Xmqlookupd.History.Found.{found_by_key}
use xmq.Xmqlookupd.History.Silent.{told_active}
use xmq.Xmqlookupd.Admin.{
  address, Place, tombstone_places, found_places, Answer, answered, failed, Found, Options,
  do_lookup, with_topic, do_tombstone_topic_producer,
}
use xmq.Xmqlookupd.History.Places.{struck_if, hit, get-tombstone_places}

-- The state keeps every id once in a registration.
Move-OnceDb : {l m : Lookupd} → Move l m → OnceDb l.db → OnceDb m.db
unfolding add_copy step
Move-OnceDb (change l op h) c = step-OnceDb op l.db c
Move-OnceDb (copy l k i info there) c =
    step-OnceDb (add_producer_op k (new_producer l.refs info)) l.db c
Move-OnceDb (meet l ps own kept) c = c

Moves-OnceDb : {l m : Lookupd} → Moves l m → OnceDb l.db → OnceDb m.db
Moves-OnceDb stay c = c
Moves-OnceDb (onward h v) c = Move-OnceDb v (Moves-OnceDb h c)

-- The answer to a consumer shows the address.
unfoldable pub shows : Text → Answer Found → Bool
shows node (failed status e) = false
shows node (answered found) = any (λ (p : PeerInfo). address p === node) found.producers

shows_found :
    (node : Text) (rr : List Registration) (found : Found)
    → any (λ (p : PeerInfo). address p === node) found.producers ≡ false
    → shows node (elim rr as (λ _. Answer Found) [
      | [] ↦ failed 404 (lit "TOPIC_NOT_FOUND")
      | _ ∷ _ ↦ answered found
    ])
      ≡ false
unfolding shows
shows_found node [] found h = refl
shows_found node (r ∷ rr) found h = h

places_there :
    (k : Registration) (ps : List Producer) → All (λ (e : Place). e.0 ≡ k) (map (λ p. (k, p)) ps)
places_there k [] = tt
places_there k (p ∷ ps) = (refl, places_there k ps)

module _ (order : MapOrder) (topic node : Text) (db : RegistrationDb)
    (tame : (topic === lit "*") ≡ false) where
  places_exact :
      found_places order (lit "topic") topic [] db
      ≡ map
          (λ p. (topic_key topic, p))
          (producer_map_to_slice order (producers_of (topic_key topic) db))
  unfolding found_places need_filter
  places_exact = rw tame refl

  hit_there :
      (i : Text) (p : Producer)
      → get ◌===◌ i (producers_of (topic_key topic) db) ≡ some p
      → p.info.id ≡ i
      → (address p.info === node) ≡ true
      → hit node i (found_places order (lit "topic") topic [] db) ≡ true
  hit_there i p e own at =
      ap (hit node i) places_exact
      ∙ (any-map (λ (e : Place). (e.1.info.id === i) && (address e.1.info === node))
            (λ p. (topic_key topic, p))
            (producer_map_to_slice order (producers_of (topic_key topic) db))
          ∙ (any-slice order (λ q. (q.info.id === i) && (address q.info === node)) (lit "topic")
                (producers_of (topic_key topic) db)
              ∙ any-found ◌===◌ ===_iff
                  (λ (e : Text × Producer). (e.1.info.id === i) && (address e.1.info === node)) i p
                  (producers_of (topic_key topic) db) e
                  (ground (arith, at, (===_iff p.info.id i).1 own))))

-- An active producer at the address
abbrev active_at : (Text → ℕ) → ℕ → Options → Text → Producer → Bool
active_at clock now o node p =
    not (
      ltb o.inactive_producer_timeout (now - p.info.last_update)
      || is_tombstoned (clock p.info.id) o.tombstone_lifetime p)
    && (address p.info === node)

struck_off :
    (clock : Text → ℕ) (asked now : ℕ) (o : Options) (node : Text) (p : Producer)
    → now ≤ clock p.info.id
    → clock p.info.id < now + o.tombstone_lifetime
    → active_at clock asked o node (tombstone now p) ≡ false
unfolding tombstone is_tombstoned
struck_off clock asked now o node p after soon =
    let counts : ltb (clock p.info.id - now) o.tombstone_lifetime ≡ true =
      lt→ltb _ _ (omega (arith, after, soon)) in
    ground (arith, counts)

module _ (order : MapOrder) (l : Lookupd) (c : Copies l) (once : OnceDb l.db) (topic node : Text)
    (tame : (topic === lit "*") ≡ false) (clock : Text → ℕ) (asked now : ℕ) (o : Options)
    (in_time : (i : Text) → (now ≤ clock i) × (clock i < now + o.tombstone_lifetime)) where
  abbrev places : List Place
  places = found_places order (lit "topic") topic [] l.db

  abbrev after_db : RegistrationDb
  after_db = tombstone_places now node places l.db

  left_out :
      (i : Text) (p : Producer)
      → get ◌===◌ i (producers_of (topic_key topic) after_db) ≡ some p
      → active_at clock asked o node p ≡ false
  left_out i p e =
      let was : get ◌===◌ i (producers_of (topic_key topic) after_db)
          ≡ struck_if now (hit node i places) (get ◌===◌ i (producers_of (topic_key topic) l.db)) =
        get-tombstone_places (topic_key topic) i node now places l.db (
          subst (All (λ (x : Place). x.0 ≡ topic_key topic))
            (sym (places_exact order topic node l.db tame)) (places_there (topic_key topic) _)) in
      elim (Option-cases (get ◌===◌ i (producers_of (topic_key topic) l.db))) [
        | inl gone ↦ absurd (cc (sym e ∙ (was ∙ ap (struck_if now (hit node i places)) gone)))
        | inr (q, g) ↦ elim (Bool-cases (hit node i places)) [
          | inl struck ↦
              let this : p ≡ tombstone now q = cc (
                sym e
                ∙ (was
                    ∙ (ap (struck_if now (hit node i places)) g
                        ∙ ap (λ b. struck_if now b (some q)) struck))) in
              subst (λ x. active_at clock asked o node x ≡ false) (sym this)
                (struck_off clock asked now o node q (in_time q.info.id).0 (in_time q.info.id).1)
          | inr missed ↦
              let this : p ≡ q = cc (
                sym e
                ∙ (was
                    ∙ (ap (struck_if now (hit node i places)) g
                        ∙ ap (λ b. struck_if now b (some q)) missed))) in
              let copied : IsCopy l.peers l.refs c.owner (topic_key topic) (i, q) =
                All-get ◌===◌ ===_iff (IsCopy l.peers l.refs c.owner (topic_key topic)) i q
                  (producers_of (topic_key topic) l.db)
                  (All-producers_of (IsCopy l.peers l.refs c.owner) (topic_key topic) l.db c.copies)
                  g in
              elim (Bool-cases (address q.info === node)) [
                | inr other ↦
                    subst (λ x. active_at clock asked o node x ≡ false) (sym this)
                      (ground (arith, other))
                | inl at ↦ absurd (
                    ground
                      (arith, missed, hit_there order topic node l.db tame i q g copied.own_id at))
              ]
        ]
      ]

  none_shown :
      OnceDb after_db
      → any (active_at clock asked o node) (find_producers order (lit "topic") topic [] after_db)
        ≡ false
  none_shown once_after =
      found_by_key order (active_at clock asked o node) topic after_db tame
      ∙ elim (Bool-cases (
          any (λ (e : Text × Producer). active_at clock asked o node e.1)
            (producers_of (topic_key topic) after_db))) [
              | inr e ↦ e
              | inl e ↦
                  let (i, p, g, h) =
                    found-any ◌===◌ ===_iff
                      (λ (x : Text × Producer). active_at clock asked o node x.1)
                      (producers_of (topic_key topic) after_db)
                      (producers_of-Once (topic_key topic) after_db once_after) e in
                  absurd (ground (arith, h, left_out i p g))
            ]

-- In every state that calls lead to, after a request to tombstone the producers of a topic other than
-- "*" at an address, no consumer that asks for the topic while the tombstones count is shown that
-- address.
pub tombstone_hides :
    (order : MapOrder) (cs : List Call) (topic node : Text) (clock : Text → ℕ) (asked now : ℕ)
    (o : Options) (a b which : Option Text)
    → (topic === lit "*") ≡ false
    → ((i : Text) → (now ≤ clock i) × (clock i < now + o.tombstone_lifetime))
    → shows node (
        do_lookup order clock asked o
          (some (record { topic = some topic; channel = b; node = which }))
          (serve order
            (tombstone_call now
              (some (record { topic = some topic; channel = a; node = some node })))
            (serve_all order cs start)).db)
      ≡ false
unfolding do_lookup filter_by_active serve do_tombstone_topic_producer with_topic
tombstone_hides order cs topic node clock asked now o a b which tame in_time =
    let l = serve_all order cs start in
    let call =
      tombstone_call now (some (record { topic = some topic; channel = a; node = some node })) in
    let once : OnceDb l.db = Moves-OnceDb (serve_all-Moves order cs start) tt in
    let once_after : OnceDb (serve order call l).db =
      Moves-OnceDb (serve-Moves order call l) once in
    shows_found node _ _ (
      told_active clock asked o (λ p. address p === node)
        (find_producers order (lit "topic") topic [] (serve order call l).db)
      ∙ none_shown order l (served-Copies order cs) once topic node tame clock asked now o in_time
          once_after)
