-- ===== src/Xmqlookupd/History/Silent.antt =====
-- The time of the last update stays that of `Identify`.
use xmq.Base.{
  lt→ltb, ℕ, ◌+◌, ◌-◌, ◌<◌, ◌≡◌, refl, ap, sym, ◌∙◌, Bool, true, false, ◌&&◌, ◌||◌, not, Option,
  none, some, List, [], ◌∷◌, map, any, Bool-cases, Option-cases, inl, inr, ltb, arith,
}
use xmq.Js.Text.{Text, lit, ◌===◌, ===_iff}
use xmq.Xmqlookupd.Dict.{MapOrder, get, any-map, any-keep}
use xmq.Xmqlookupd.Registrations.{
  Registration, PeerInfo, Producer, find_producers, find_registrations, filter_by_active,
  is_tombstoned,
}
use xmq.Xmqlookupd.Registrations.Absent.{any-find_producers}
use xmq.Xmqlookupd.Daemon.{Lookupd, start, add_copy}
use xmq.Xmqlookupd.Admin.{Args, Answer, answered, failed, Found, Options, do_lookup, with_topic}
use xmq.Xmqlookupd.History.{Call, serve_all}
use xmq.Xmqlookupd.History.Moves.{Kept, Move, change, copy, meet, Moves, stay, onward}
use xmq.Xmqlookupd.History.Served.{serve_all-Moves}
use xmq.Xmqlookupd.History.Copies.{IsCopy, Copies, Moves-Copies, served-Copies, AllDb-weaken}

Kept-trans : (ps qs rs : List (Text × PeerInfo)) → Kept ps qs → Kept qs rs → Kept ps rs
Kept-trans ps qs rs h k i info e =
    let (b, f, s) = h i info e in let (d, g, t) = k i b f in (d, g, t ∙ s)

Move-Kept : {l m : Lookupd} → Move l m → Kept l.peers m.peers
unfolding add_copy
Move-Kept (change l op h) = λ i info e. (info, e, refl)
Move-Kept (copy l k i info there) = λ j x e. (x, e, refl)
Move-Kept (meet l ps own kept) = kept

pub Moves-Kept : {l m : Lookupd} → Moves l m → Kept l.peers m.peers
Moves-Kept stay = λ i info e. (info, e, refl)
Moves-Kept {l} {m} (onward {m = n} h v) =
    Kept-trans l.peers n.peers m.peers (Moves-Kept h) (Move-Kept v)

-- An active producer of the id
unfoldable pub active_one : (Text → ℕ) → ℕ → Options → Text → Producer → Bool
unfolding is_tombstoned
active_one clock now o id p =
    not (
      ltb o.inactive_producer_timeout (now - p.info.last_update)
      || is_tombstoned (clock p.info.id) o.tombstone_lifetime p)
    && (p.info.id === id)

-- The answer tells of the active producers.
pub told_active :
    (clock : Text → ℕ) (now : ℕ) (o : Options) (q : PeerInfo → Bool) (ps : List Producer)
    → any q (
        map
          (λ (p : Producer). p.info)
          (filter_by_active clock now o.inactive_producer_timeout o.tombstone_lifetime ps))
      ≡ any
          (λ (p : Producer).
            not (
              ltb o.inactive_producer_timeout (now - p.info.last_update)
              || is_tombstoned (clock p.info.id) o.tombstone_lifetime p)
            && q p.info)
          ps
unfolding filter_by_active
told_active clock now o q ps =
    any-map q (λ (p : Producer). p.info) _ ∙ any-keep (λ (p : Producer). q p.info) _ ps

pub named_active :
    (clock : Text → ℕ) (now : ℕ) (o : Options) (id : Text) (ps : List Producer)
    → any
        (λ (p : PeerInfo). p.id === id)
        (map
          (λ (p : Producer). p.info)
          (filter_by_active clock now o.inactive_producer_timeout o.tombstone_lifetime ps))
      ≡ any (active_one clock now o id) ps
unfolding active_one
named_active clock now o id ps = told_active clock now o (λ p. p.id === id) ps

module _ (order : MapOrder) (m : Lookupd) (c : Copies m) (id : Text) (info : PeerInfo)
    (known : get ◌===◌ id m.peers ≡ some info) (clock : Text → ℕ) (now : ℕ) (o : Options)
    (late : info.last_update + o.inactive_producer_timeout < now) where
  stale :
      (k : Registration) (e : Text × Producer)
      → IsCopy m.peers m.refs c.owner k e
      → active_one clock now o id e.1 ≡ false
  unfolding active_one
  stale k e h = elim (Bool-cases (e.1.info.id === id)) [
    | inl same ↦
        let found : h.peer ≡ info = cc (
          sym h.known
          ∙ (ap (λ j. get ◌===◌ j m.peers) ((===_iff e.1.info.id id).0 same) ∙ known)) in
        let time : info.last_update ≡ e.1.info.last_update =
          sym (ap (λ (x : PeerInfo). x.last_update) found) ∙ h.same_time in
        let dated : ltb o.inactive_producer_timeout (now - e.1.info.last_update) ≡ true =
          lt→ltb _ _ (omega (arith, time)) in
        ground (arith, dated)
    | inr other ↦ ground (arith, other)
  ]

  not_named :
      (category key sub_key : Text)
      → any
          (λ (p : PeerInfo). p.id === id)
          (map
            (λ (p : Producer). p.info)
            (filter_by_active clock now o.inactive_producer_timeout o.tombstone_lifetime
              (find_producers order category key sub_key m.db)))
        ≡ false
  not_named category key sub_key =
      named_active clock now o id (find_producers order category key sub_key m.db)
      ∙ any-find_producers order (active_one clock now o id) category key sub_key m.db
          (AllDb-weaken _ _ (λ k e h. ground (arith, stale k e h)) m.db c.copies)

-- The answer to a consumer names the id.
unfoldable pub names : Text → Answer Found → Bool
names id (failed status e) = false
names id (answered found) = any (λ (p : PeerInfo). p.id === id) found.producers

names_found :
    (id : Text) (rr : List Registration) (found : Found)
    → any (λ (p : PeerInfo). p.id === id) found.producers ≡ false
    → names id (elim rr as (λ _. Answer Found) [
      | [] ↦ failed 404 (lit "TOPIC_NOT_FOUND")
      | _ ∷ _ ↦ answered found
    ])
      ≡ false
unfolding names
names_found id [] found h = refl
names_found id (r ∷ rr) found h = h

names-with_topic :
    (id : Text) (args : Option Args) (f : Args → Text → Answer Found)
    → ((a : Args) (topic : Text) → names id (f a topic) ≡ false)
    → names id (with_topic args f) ≡ false
unfolding names with_topic
names-with_topic id none f h = refl
names-with_topic id (some a) f h = elim (Option-cases a.topic) [
  | inl e ↦ rw e refl
  | inr (topic, e) ↦ rw e (h a topic)
]

-- A daemon that identified itself is not named to any consumer that asks for a topic more than the
-- timeout after that call, whatever calls were made on the lookup daemon, pings of that daemon and new
-- registrations among them: none of them brings the time of the last update forward.
pub lookup_forgets :
    (order : MapOrder) (cs ds : List Call) (id : Text) (info : PeerInfo) (clock : Text → ℕ)
    (now : ℕ) (o : Options) (args : Option Args)
    → get ◌===◌ id (serve_all order cs start).peers ≡ some info
    → info.last_update + o.inactive_producer_timeout < now
    → names id (do_lookup order clock now o args (serve_all order ds (serve_all order cs start)).db)
      ≡ false
unfolding do_lookup
lookup_forgets order cs ds id info clock now o args known late =
    let l = serve_all order cs start in
    let m = serve_all order ds l in
    let moves = serve_all-Moves order ds l in
    let (kept, there, same) = Moves-Kept moves id info known in
    let c : Copies m = Moves-Copies moves (served-Copies order cs) in
    names-with_topic id args _ λ a topic.
      names_found id (find_registrations order (lit "topic") topic [] m.db) _
        (not_named order m c id kept there clock now o (omega (arith, same)) (lit "topic") topic [])
