-- ===== src/Xmqd/Guid/Tests.antt =====
-- The factory at concrete times.
use xmq.Base.{ℕ, ◌+◌, ◌-◌, ◌*◌, ◌/◌, ◌%◌, ◌^◌, ◌≡◌, ◌≢◌, refl, List, [], ◌∷◌, All, arith}
use xmq.Js.Text.{lit}
use xmq.Xmqd.Guid.{
  GuidFactory, made, failed, sequence_expired, id_backwards, new_factory, new_guid, guid_of,
  next_sequence, take_guid, signed_leb, made_ids, after_calls, twepoch, hex,
}
use xmq.Xmqd.Guid.Runs.{Increasing, made_ids-Increasing, made_ids-apart}
use xmq.Xmqd.Guid.Clock.{later_call}
use xmq.Xmqd.Guid.Hex.{read_hex, read_hex-hex}

-- A hash for tests, and two nodes of different hashes.
abbrev first_byte : List ℕ → ℕ
first_byte [] = 0
first_byte (b ∷ _) = b

abbrev node_one : GuidFactory
node_one = new_factory (5 ∷ [])

abbrev node_two : GuidFactory
node_two = new_factory (6 ∷ [])

-- One tick after the epoch, the same again, and one tick before.
abbrev tick : ℕ
tick = (twepoch + 1) * 2 ^ 20

test_made :
    made_ids first_byte (tick ∷ tick ∷ (twepoch * 2 ^ 20) ∷ []) node_one
    ≡ (2 ^ 22 + 5 * 4096) ∷ (2 ^ 22 + 5 * 4096 + 1) ∷ []
unfolding made_ids new_factory new_guid guid_of next_sequence take_guid signed_leb
test_made = refl

-- The sequence is full: the call fails, and so do those after it in this tick.
abbrev full : GuidFactory
full = record {
  node_id = 5 ∷ [];
  sequence = 4095;
  last_timestamp = twepoch + 1;
  last_id = 2 ^ 22 + 5 * 4096 + 4095;
}

test_full : (new_guid first_byte tick full).0 ≡ failed sequence_expired
unfolding new_guid next_sequence take_guid
test_full = refl

test_full_again :
    (new_guid first_byte tick (new_guid first_byte tick full).1).0 ≡ failed id_backwards
unfolding new_guid guid_of next_sequence take_guid signed_leb
test_full_again = refl

made_ids-Increasing_example : Increasing 0 (made_ids first_byte (tick ∷ tick ∷ []) node_one)
unfolding new_factory
made_ids-Increasing_example =
    made_ids-Increasing first_byte (tick ∷ tick ∷ []) node_one (omega arith)

made_ids-apart_example :
    All
      (λ x. All (λ y. x ≢ y) (made_ids first_byte (tick ∷ []) node_two))
      (made_ids first_byte (tick ∷ tick ∷ []) node_one)
unfolding new_factory
made_ids-apart_example =
    made_ids-apart first_byte (tick ∷ tick ∷ []) (tick ∷ []) node_one node_two (omega arith)
      (omega arith) (λ e. cc)

later_call_example :
    (new_guid first_byte (tick + 2 ^ 20) (after_calls first_byte (tick ∷ tick ∷ []) node_one)).0
    ≡ made (((tick + 2 ^ 20) / 2 ^ 20 - twepoch) * 2 ^ 22 + first_byte (5 ∷ []) % 1024 * 4096)
unfolding new_factory new_guid guid_of next_sequence take_guid signed_leb after_calls
later_call_example =
    later_call first_byte (5 ∷ []) (tick ∷ tick ∷ []) (tick + 2 ^ 20) (omega arith) (omega arith)
      (omega arith) (omega arith)

test_hex : hex (2 ^ 22 + 0xabcd) ≡ lit "000000000040abcd"
unfolding hex
test_hex = refl

read_hex-hex_example : read_hex 0 (hex (2 ^ 22)) ≡ 2 ^ 22
read_hex-hex_example = read_hex-hex (2 ^ 22) (omega arith)
