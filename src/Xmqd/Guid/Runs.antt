-- ===== src/Xmqd/Guid/Runs.antt =====
-- The ids that a factory makes in a sequence of calls.
use xmq.Base.{
  ℕ, ◌+◌, ◌*◌, ◌/◌, ◌%◌, ◌^◌, ◌≤◌, ◌<◌, ◌≡◌, ◌≢◌, refl, ◌∙◌, ap, sym, subst, true, false, ◌&&◌,
  List, [], ◌∷◌, ltb, leb, ◌==◌, if◌then◌else◌, if_elim, All, arith,
}
use xmq.Xmqd.Guid.{
  GuidFactory, GuidResult, made, failed, guid_of, next_sequence, signed_leb, take_guid, new_guid,
  made_ids, collect,
}
use xmq.Xmqd.Guid.Fields.{time_field, guid_of_lem, next_sequence_bound, signed_leb_lem}

-- What a call leaves: a failure keeps the last id, and an id is larger than it and has its fields.
abbrev pub Leaves : (List ℕ → ℕ) → ℕ → GuidFactory → GuidResult × GuidFactory → Type 0
Leaves hash ts f (failed e, g) =
    (g.last_id ≡ f.last_id) × (f.last_timestamp ≤ g.last_timestamp) × (g.node_id ≡ f.node_id)
Leaves hash ts f (made id, g) =
    (g.last_id ≡ id)
    × (f.last_id < id)
    × (id < 2 ^ 63)
    × (g.last_timestamp ≡ ts)
    × (g.node_id ≡ f.node_id)
    × (id / 4096 % 1024 ≡ hash f.node_id % 1024)
    × (id / 2 ^ 22 ≡ time_field ts)

module _ (hash : List ℕ → ℕ) where
  take_guid-Leaves :
      (ts : ℕ) (f : GuidFactory)
      → f.last_id < 2 ^ 63
      → f.sequence < 4096
      → f.last_timestamp ≤ ts
      → Leaves hash ts f (take_guid hash ts f)
  unfolding take_guid
  take_guid-Leaves ts f h small late =
      let id : ℕ = guid_of hash f.node_id ts f.sequence in
      let fields : id ≡ time_field ts * 2 ^ 22 + hash f.node_id % 1024 * 4096 + f.sequence =
        guid_of_lem hash f.node_id ts f.sequence small in
      if_elim (Leaves hash ts f) (signed_leb id f.last_id) _ _ (λ back. (refl, late, refl))
        (λ ahead.
          let above : (if ltb id (2 ^ 63) then leb id f.last_id else true) ≡ false =
            sym (signed_leb_lem id f.last_id (omega (arith, fields)) h) ∙ ahead in
          (
            refl,
            ground arith,
            ground arith,
            refl,
            refl,
            omega (arith, fields),
            omega (arith, fields),
          ))

  pub new_guid-Leaves :
      (nanos : ℕ) (f : GuidFactory)
      → f.last_id < 2 ^ 63
      → Leaves hash (nanos / 2 ^ 20) f (new_guid hash nanos f)
  unfolding new_guid
  new_guid-Leaves nanos f h =
      let ts = nanos / 2 ^ 20 in
      let next = record f { sequence = next_sequence hash ts f } in
      if_elim (Leaves hash ts f) (ltb ts f.last_timestamp) _ _ (λ _. (refl, omega arith, refl))
        (λ late.
          if_elim (Leaves hash ts f) ((f.last_timestamp == ts) && (next.sequence == 0)) _ _
            (λ _. (refl, omega arith, refl))
            (λ _. take_guid-Leaves ts next h (next_sequence_bound hash ts f) (ground arith)))

-- Each number is larger than the one before it, the first than `p`.
abbrev pub Increasing : ℕ → List ℕ → Type 0
Increasing p [] = Unit
Increasing p (x ∷ xs) = (p < x) × Increasing x xs

abbrev IdsOf : (List ℕ → ℕ) → List ℕ → List ℕ → Type 0
IdsOf hash node ids = All (λ id. id / 4096 % 1024 ≡ hash node % 1024) ids

module _ (hash : List ℕ → ℕ) where
  collect-Increasing :
      (ts : ℕ) (f : GuidFactory) (r : GuidResult × GuidFactory) (ids : List ℕ)
      → Leaves hash ts f r
      → Increasing r.1.last_id ids
      → Increasing f.last_id (collect r.0 ids)
  collect-Increasing ts f (failed e, g) ids (same, _, _) k = subst (λ p. Increasing p ids) same k
  collect-Increasing ts f (made id, g) ids (same, above, _, _, _, _, _) k =
      (above, subst (λ p. Increasing p ids) same k)

  bound-Leaves :
      (ts : ℕ) (f : GuidFactory) (r : GuidResult × GuidFactory)
      → f.last_id < 2 ^ 63
      → Leaves hash ts f r
      → r.1.last_id < 2 ^ 63
  bound-Leaves ts f (failed e, g) h (same, _, _) = omega (arith, same)
  bound-Leaves ts f (made id, g) h (same, above, below, _, _, _, _) = omega (arith, same, below)

  -- The ids of a factory, in the order of the calls that made them, are strictly increasing and larger
  -- than the one it made last, whatever the clock says.
  pub made_ids-Increasing :
      (ts : List ℕ) (f : GuidFactory)
      → f.last_id < 2 ^ 63
      → Increasing f.last_id (made_ids hash ts f)
  unfolding made_ids
  made_ids-Increasing [] f h = tt
  made_ids-Increasing (t ∷ ts) f h =
      let r = new_guid hash t f in
      let left = new_guid-Leaves hash t f h in
      collect-Increasing (t / 2 ^ 20) f r _ left
        (made_ids-Increasing ts r.1 (bound-Leaves (t / 2 ^ 20) f r h left))

  pub node-Leaves :
      (ts : ℕ) (f : GuidFactory) (r : GuidResult × GuidFactory)
      → Leaves hash ts f r
      → r.1.node_id ≡ f.node_id
  node-Leaves ts f (failed e, g) (_, _, same) = same
  node-Leaves ts f (made id, g) (_, _, _, _, same, _, _) = same

  collect-IdsOf :
      (ts : ℕ) (f : GuidFactory) (r : GuidResult × GuidFactory) (ids : List ℕ)
      → Leaves hash ts f r
      → IdsOf hash f.node_id ids
      → IdsOf hash f.node_id (collect r.0 ids)
  collect-IdsOf ts f (failed e, g) ids h k = k
  collect-IdsOf ts f (made id, g) ids (_, _, _, _, _, node, _) k = (node, k)

  made_ids-IdsOf :
      (ts : List ℕ) (f : GuidFactory)
      → f.last_id < 2 ^ 63
      → IdsOf hash f.node_id (made_ids hash ts f)
  unfolding made_ids
  made_ids-IdsOf [] f h = tt
  made_ids-IdsOf (t ∷ ts) f h =
      let r = new_guid hash t f in
      let left = new_guid-Leaves hash t f h in
      collect-IdsOf (t / 2 ^ 20) f r _ left (
        subst (λ n. IdsOf hash n (made_ids hash ts r.1)) (node-Leaves (t / 2 ^ 20) f r left)
          (made_ids-IdsOf ts r.1 (bound-Leaves (t / 2 ^ 20) f r h left)))

  apart :
      (m n : List ℕ) (x : ℕ) (ys : List ℕ)
      → hash m % 1024 ≢ hash n % 1024
      → x / 4096 % 1024 ≡ hash m % 1024
      → IdsOf hash n ys
      → All (λ y. x ≢ y) ys
  apart m n x [] d h k = tt
  apart m n x (y ∷ ys) d h (k, l) =
      (λ e. d (sym h ∙ (ap (λ (z : ℕ). z / 4096 % 1024) e ∙ k)), apart m n x ys d h l)

  All-apart :
      (m n : List ℕ) (xs ys : List ℕ)
      → hash m % 1024 ≢ hash n % 1024
      → IdsOf hash m xs
      → IdsOf hash n ys
      → All (λ x. All (λ y. x ≢ y) ys) xs
  All-apart m n [] ys d h k = tt
  All-apart m n (x ∷ xs) ys d (h, i) k = (apart m n x ys d h k, All-apart m n xs ys d i k)

  -- Two factories whose nodes' hashes differ in their ten bits never make the same id, whatever
  -- their clocks say.
  pub made_ids-apart :
      (ts us : List ℕ) (f g : GuidFactory)
      → f.last_id < 2 ^ 63
      → g.last_id < 2 ^ 63
      → hash f.node_id % 1024 ≢ hash g.node_id % 1024
      → All (λ x. All (λ y. x ≢ y) (made_ids hash us g)) (made_ids hash ts f)
  made_ids-apart ts us f g hf hg d =
      All-apart f.node_id g.node_id _ _ d (made_ids-IdsOf ts f hf) (made_ids-IdsOf us g hg)
