-- ===== src/Xmqd/Guid.antt =====
-- xmqd/guid.go: the factory of message ids. An int64 is its bit pattern, below 2 ^ 64, compared as a
-- signed number by `signed_leb`. A call's time and the hash of the node's id are arguments: `nanos` is
-- `time.Now().UnixNano()`, which is not negative, and `hash` is the CRC-32 of the MD5 sum.
mod Tests
pub mod Fields
pub mod Runs
pub mod Clock
pub mod Hex
use Prim.Native.Nat.{bit_and, bit_or}
use xmq.Base.{
  ℕ, ◌+◌, ◌-◌, ◌*◌, ◌/◌, ◌%◌, ◌^◌, Bool, true, false, ◌&&◌, List, [], ◌∷◌, ◌++◌, ltb, leb, ◌==◌,
  if◌then◌else◌,
}

abbrev pub node_id_bits : ℕ
node_id_bits = 10

abbrev pub sequence_bits : ℕ
sequence_bits = 12

abbrev pub timestamp_shift : ℕ
timestamp_shift = 22

-- `int64(-1) ^ (int64(-1) << sequenceBits)`
abbrev pub sequence_mask : ℕ
sequence_mask = 4095

abbrev pub twepoch : ℕ
twepoch = 1288834974288

abbrev pub word : ℕ
word = 2 ^ 64

pub data GuidError : Type 0 where
  time_backwards sequence_expired id_backwards : GuidError

pub data GuidResult : Type 0 where
  made : ℕ → GuidResult
  failed : GuidError → GuidResult

pub record GuidFactory : Type 0 where
  pub node_id : List ℕ
  pub sequence : ℕ
  pub last_timestamp : ℕ
  pub last_id : ℕ

unfoldable pub new_factory : List ℕ → GuidFactory
new_factory node_id = record { node_id = node_id; sequence = 0; last_timestamp = 0; last_id = 0 }

-- `a <= b` on int64
unfoldable pub signed_leb : ℕ → ℕ → Bool
signed_leb a b = leb ((a + 2 ^ 63) % word) ((b + 2 ^ 63) % word)

abbrev pub collect : GuidResult → List ℕ → List ℕ
collect (made id) ids = id ∷ ids
collect (failed e) ids = ids

module _ (hash : List ℕ → ℕ) where
  -- `((ts - twepoch) << timestampShift) | (nNodeID << nodeIDShift) | f.sequence`
  unfoldable pub guid_of : List ℕ → ℕ → ℕ → ℕ
  guid_of node_id ts sequence =
      let n_node_id = hash node_id % 1024 in
      bit_or
        (bit_or ((ts + word - twepoch) % word * 2 ^ timestamp_shift % word)
          (n_node_id * 2 ^ sequence_bits))
        sequence

  unfoldable pub next_sequence : ℕ → GuidFactory → ℕ
  next_sequence ts f = if f.last_timestamp == ts then bit_and (f.sequence + 1) sequence_mask else 0

  -- `NewGUID` from the point where the sequence is chosen
  unfoldable pub take_guid : ℕ → GuidFactory → GuidResult × GuidFactory
  unfolding guid_of signed_leb
  take_guid ts f =
      let stamped = record f { last_timestamp = ts } in
      let id = guid_of f.node_id ts f.sequence in
      if signed_leb id f.last_id
      then (failed id_backwards, stamped)
      else (made id, record stamped { last_id = id })

  unfoldable pub new_guid : ℕ → GuidFactory → GuidResult × GuidFactory
  unfolding next_sequence take_guid
  new_guid nanos f =
      let ts = nanos / 2 ^ 20 in
      let next = record f { sequence = next_sequence ts f } in
      if ltb ts f.last_timestamp
      then (failed time_backwards, f)
      else if (f.last_timestamp == ts) && (next.sequence == 0)
      then (failed sequence_expired, next)
      else take_guid ts next

  -- The ids that a sequence of calls makes, and the factory behind them.
  unfoldable pub made_ids : List ℕ → GuidFactory → List ℕ
  made_ids [] f = []
  made_ids (t ∷ ts) f = collect (new_guid t f).0 (made_ids ts (new_guid t f).1)

  unfoldable pub after_calls : List ℕ → GuidFactory → GuidFactory
  after_calls [] f = f
  after_calls (t ∷ ts) f = after_calls ts (new_guid t f).1

-- A byte in two digits, as `hex.Encode` writes it.
hex_digit : ℕ → ℕ
hex_digit n = if ltb n 10 then 48 + n else 87 + n

hex_byte : ℕ → List ℕ
unfolding hex_digit
hex_byte b = hex_digit (b / 16) ∷ hex_digit (b % 16) ∷ []

-- `g.Hex()`: the bytes from the highest to the lowest
unfoldable pub hex : ℕ → List ℕ
unfolding hex_byte
hex g =
    let shift = λ (k : ℕ). hex_byte (g / 2 ^ k % 256) in
    shift 56
    ++ (shift 48 ++ (shift 40 ++ (shift 32 ++ (shift 24 ++ (shift 16 ++ (shift 8 ++ shift 0))))))
