-- ===== src/Xmqd/Message.antt =====
-- xmqd/message.go: a message as it is written to clients and to disk, and read back.
pub mod Bytes
pub mod Writing
pub mod Decoding
pub mod Tests
use xmq.Base.{
  ℕ, zero, suc, ◌+◌, ◌*◌, ◌/◌, ◌%◌, Bool, true, false, Option, none, some, List, [], ◌∷◌, ◌++◌, ltb,
  length, take, drop, if◌then◌else◌,
}

-- The part of a message that is written, its numbers by their bits.
pub record Message : Type 0 where
  pub id : List ℕ
  pub body : List ℕ
  pub timestamp : ℕ
  pub attempts : ℕ

-- `binary.BigEndian` writes the lowest bytes of a number, and reads a number.
abbrev pub put_big : ℕ → ℕ → List ℕ
put_big zero v = []
put_big (suc n) v = put_big n (v / 256) ++ (v % 256 ∷ [])

abbrev pub read_big : ℕ → List ℕ → ℕ
read_big acc [] = acc
read_big acc (b ∷ bs) = read_big (acc * 256 + b) bs

abbrev pub msg_id_length : ℕ
msg_id_length = 16

abbrev pub min_valid_msg_length : ℕ
min_valid_msg_length = msg_id_length + 8 + 2

-- An `io.Writer`: how much of the bytes it takes, and whether it fails.
pub record Writer (W : Type 0) : Type 0 where
  pub write : List ℕ → W → ℕ × Bool × W

module _ {W : Type 0} (writer : Writer W) where
  -- One of the writes of `WriteTo`, after `total` bytes, and what follows it if it does not fail.
  unfoldable pub write_part : List ℕ → (ℕ → W → ℕ × Bool × W) → ℕ → W → ℕ × Bool × W
  write_part bs next total w =
      let (n, failed, v) = writer.write bs w in
      if failed then (total + n, true, v) else next (total + n) v

  -- How many bytes are written, and whether that failed.
  unfoldable pub write_to : Message → W → ℕ × Bool × W
  write_to m w =
      write_part (put_big 8 m.timestamp ++ put_big 2 m.attempts)
        (write_part m.id (write_part m.body (λ total v. (total, false, v)))) 0 w

-- `none` is the error for a buffer that is too short.
unfoldable pub decode_message : List ℕ → Option Message
decode_message b =
    if ltb (length b) min_valid_msg_length
    then none
    else some (record {
      id = take msg_id_length (drop 10 b);
      body = drop (10 + msg_id_length) b;
      timestamp = read_big 0 (take 8 b);
      attempts = read_big 0 (take 2 (drop 8 b));
    })
