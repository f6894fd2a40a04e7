-- ===== src/Xmqd/Guid/Fields.antt =====
-- The fields of an id: the time, the node and the sequence.
use Prim.Native.Nat.{bit_and, bit_or}
use xmq.Base.{
  ℕ, ◌+◌, ◌-◌, ◌*◌, ◌/◌, ◌%◌, ◌^◌, ◌<◌, ◌≡◌, ◌∙◌, ap, true, List, ltb, leb, ◌==◌, if◌then◌else◌,
  arith,
}
use xmq.Base.Bits.{or_fields, and_fields}
use xmq.Xmqd.Guid.{GuidFactory, guid_of, next_sequence, signed_leb, twepoch, word, timestamp_shift}

-- The time's field: 42 bits that hold the time since the epoch.
abbrev pub time_field : ℕ → ℕ
time_field ts = (ts + word - twepoch) % 2 ^ 42

time_shifted :
    (ts : ℕ) → (ts + word - twepoch) % word * 2 ^ timestamp_shift % word ≡ time_field ts * 2 ^ 22
time_shifted ts = omega arith

pub guid_of_lem :
    (hash : List ℕ → ℕ) (node : List ℕ) (ts s : ℕ)
    → s < 4096
    → guid_of hash node ts s ≡ time_field ts * 2 ^ 22 + hash node % 1024 * 4096 + s
unfolding guid_of
guid_of_lem hash node ts s h =
    let n : ℕ = hash node % 1024 in
    let high : bit_or (time_field ts * 2 ^ 22) (n * 2 ^ 12) ≡ time_field ts * 2 ^ 22 + n * 2 ^ 12 =
      or_fields 22 (time_field ts) (n * 2 ^ 12) (omega arith) in
    let low = or_fields 12 (time_field ts * 2 ^ 10 + n) s h in
    ap (λ t. bit_or (bit_or t (n * 2 ^ 12)) s) (time_shifted ts)
    ∙ (ap (λ t. bit_or t s) (high ∙ omega arith) ∙ (low ∙ omega arith))

pub next_sequence_lem :
    (hash : List ℕ → ℕ) (ts : ℕ) (f : GuidFactory)
    → next_sequence hash ts f ≡ (if f.last_timestamp == ts then (f.sequence + 1) % 4096 else 0)
unfolding next_sequence
next_sequence_lem hash ts f =
    let masked : bit_and (f.sequence + 1) 4095 ≡ (f.sequence + 1) % 4096 =
      ap (λ t. bit_and t 4095) (omega arith)
      ∙ and_fields 12 ((f.sequence + 1) / 4096) ((f.sequence + 1) % 4096) (omega arith) in
    ap (λ (t : ℕ). if f.last_timestamp == ts then t else 0) masked

pub next_sequence_bound :
    (hash : List ℕ → ℕ) (ts : ℕ) (f : GuidFactory) → next_sequence hash ts f < 4096
next_sequence_bound hash ts f = ground (arith, next_sequence_lem hash ts f)

-- A number that is not negative, against one that may be.
pub signed_leb_lem :
    (a b : ℕ) → a < word → b < 2 ^ 63 → signed_leb a b ≡ (if ltb a (2 ^ 63) then leb a b else true)
unfolding signed_leb
signed_leb_lem a b h k = ground arith
