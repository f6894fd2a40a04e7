-- ===== src/Xmqd/Guid/Clock.antt =====
-- A factory whose clock goes on makes ids again.
use xmq.Base.{
  ℕ, ◌+◌, ◌-◌, ◌*◌, ◌/◌, ◌%◌, ◌^◌, ◌≤◌, ◌<◌, ◌≡◌, ◌⊎◌, inl, inr, refl, ◌∙◌, ap, false, List, [],
  ◌∷◌, All, arith,
}
use xmq.Xmqd.Guid.{
  GuidFactory, GuidResult, made, failed, guid_of, next_sequence, signed_leb, take_guid, new_guid,
  new_factory, after_calls, twepoch,
}
use xmq.Xmqd.Guid.Fields.{guid_of_lem, next_sequence_lem, signed_leb_lem}
use xmq.Xmqd.Guid.Runs.{Leaves, new_guid-Leaves, node-Leaves}

-- The last id is not ahead of the last time.
record IsTimely (f : GuidFactory) : Type 0 where
  positive : f.last_id < 2 ^ 63
  timely : (f.last_id ≡ 0) ⊎ (f.last_id / 2 ^ 22 + twepoch ≤ f.last_timestamp)

module _ (hash : List ℕ → ℕ) where
  Leaves-IsTimely :
      (ts : ℕ) (f : GuidFactory) (r : GuidResult × GuidFactory)
      → ts < 2 ^ 44
      → IsTimely f
      → Leaves hash ts f r
      → IsTimely r.1
  Leaves-IsTimely ts f (failed e, g) b h (same, late, _) = record {
    positive = omega (arith, same, h.positive);
    timely = ground (arith, h.timely);
  }
  Leaves-IsTimely ts f (made id, g) b h (same, above, below, stamp, _, _, time) = record {
    positive = omega (arith, same);
    timely = inr (omega arith);
  }

  after_calls-IsTimely :
      (ts : List ℕ) (f : GuidFactory)
      → All (λ t. t < 2 ^ 63) ts
      → IsTimely f
      → IsTimely (after_calls hash ts f)
  unfolding after_calls
  after_calls-IsTimely [] f b h = h
  after_calls-IsTimely (t ∷ ts) f (b, c) h =
      let r = new_guid hash t f in
      after_calls-IsTimely ts r.1 c
        (Leaves-IsTimely (t / 2 ^ 20) f r (omega arith) h (new_guid-Leaves hash t f h.positive))

  after_calls-node :
      (ts : List ℕ) (f : GuidFactory)
      → All (λ t. t < 2 ^ 63) ts
      → IsTimely f
      → (after_calls hash ts f).node_id ≡ f.node_id
  unfolding after_calls
  after_calls-node [] f b h = refl
  after_calls-node (t ∷ ts) f (b, c) h =
      let r = new_guid hash t f in
      let left = new_guid-Leaves hash t f h.positive in
      after_calls-node ts r.1 c (Leaves-IsTimely (t / 2 ^ 20) f r (omega arith) h left)
      ∙ node-Leaves hash (t / 2 ^ 20) f r left

  later_lem :
      (nanos : ℕ) (f : GuidFactory)
      → IsTimely f
      → f.last_timestamp < nanos / 2 ^ 20
      → twepoch < nanos / 2 ^ 20
      → nanos / 2 ^ 20 < twepoch + 2 ^ 41
      → (new_guid hash nanos f).0
        ≡ made ((nanos / 2 ^ 20 - twepoch) * 2 ^ 22 + hash f.node_id % 1024 * 4096)
  unfolding new_guid take_guid
  later_lem nanos f h late after before =
      let ts : ℕ = nanos / 2 ^ 20 in
      let s : next_sequence hash ts f ≡ 0 = next_sequence_lem hash ts f ∙ ground arith in
      let id = guid_of hash f.node_id ts (next_sequence hash ts f) in
      let fields : id ≡ (ts - twepoch) * 2 ^ 22 + hash f.node_id % 1024 * 4096 =
        guid_of_lem hash f.node_id ts _ (omega (arith, s)) ∙ omega (arith, s) in
      let ahead : signed_leb id f.last_id ≡ false =
        signed_leb_lem id f.last_id (omega (arith, fields)) h.positive
        ∙ ground (arith, fields, h.timely) in
      ground (arith, ahead, fields)

  -- A new factory, whatever calls it had, makes an id at the first call of a later tick of the clock,
  -- of 2 ^ 20 nanoseconds, that is after the epoch and within 2 ^ 41 ticks of it; the id has the tick
  -- since the epoch, the ten bits of the node's hash, and the sequence 0.
  pub later_call :
      (node : List ℕ) (calls : List ℕ) (nanos : ℕ)
      → All (λ t. t < 2 ^ 63) calls
      → (after_calls hash calls (new_factory node)).last_timestamp < nanos / 2 ^ 20
      → twepoch < nanos / 2 ^ 20
      → nanos / 2 ^ 20 < twepoch + 2 ^ 41
      → (new_guid hash nanos (after_calls hash calls (new_factory node))).0
        ≡ made ((nanos / 2 ^ 20 - twepoch) * 2 ^ 22 + hash node % 1024 * 4096)
  unfolding new_factory
  later_call node calls nanos b late after before =
      let start : IsTimely (new_factory node) = record {
        positive = omega arith;
        timely = inl refl;
      } in
      later_lem nanos (after_calls hash calls (new_factory node))
        (after_calls-IsTimely calls (new_factory node) b start) late after before
      ∙ ap (λ m. made ((nanos / 2 ^ 20 - twepoch) * 2 ^ 22 + hash m % 1024 * 4096))
          (after_calls-node calls (new_factory node) b start)
