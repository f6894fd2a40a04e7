-- ===== src/Xmqd/Message/Tests.antt =====
-- A message with a body of two bytes.
use xmq.Base.{
  ℕ, ◌-◌, ◌<◌, ◌≤◌, ◌≡◌, refl, false, none, some, List, [], ◌∷◌, ◌++◌, length, take, ltb, min, ◌⊎◌,
  arith,
}
use xmq.Xmqd.Message.{Message, Writer, write_to, write_part, decode_message}
use xmq.Xmqd.Message.Decoding.{IsMessage, encoded, decode_message-encoded, decode_message_lem}
use xmq.Xmqd.Message.Writing.{Appends, write_to_lem}

abbrev digits : List ℕ
digits = 48 ∷ 49 ∷ 50 ∷ 51 ∷ 52 ∷ 53 ∷ 54 ∷ 55 ∷ 56 ∷ 57 ∷ 97 ∷ 98 ∷ 99 ∷ 100 ∷ 101 ∷ 102 ∷ []

abbrev message : Message
message = record { id = digits; body = 7 ∷ 8 ∷ []; timestamp = 1000; attempts = 258 }

decode_message-encoded_example : decode_message (encoded message) ≡ some message
decode_message-encoded_example =
    decode_message-encoded message
      (record { id_length = refl; word = omega arith; short = omega arith })

decode_message_lem_example :
    ((length (encoded message) < 26) × (decode_message (encoded message) ≡ none))
    ⊎ ((26 ≤ length (encoded message))
        × ((m : Message) × (decode_message (encoded message) ≡ some m)
            × IsMessage m
            × (encoded m ≡ encoded message)))
decode_message_lem_example = decode_message_lem (encoded message) (omega arith)

-- A disk with room for twenty bytes.
abbrev room : List ℕ → ℕ
room w = 20 - length w

abbrev disk : Writer (List ℕ)
disk = record {
  write = λ bs w.
      (min (length bs) (room w), ltb (room w) (length bs), w ++ take (min (length bs) (room w)) bs);
}

disk-Appends : Appends disk (λ w. w)
disk-Appends = record {
  most = λ bs w. omega arith;
  whole = λ bs w e. ground (arith, e);
  appends = λ bs w. refl;
}

write_to_lem_example :
    ((write_to disk message []).2 ≡ [] ++ take (write_to disk message []).0 (encoded message))
    × ((write_to disk message []).1 ≡ false
        → (write_to disk message []).0 ≡ length (encoded message))
write_to_lem_example = write_to_lem disk (λ w. w) disk-Appends message []

-- The disk is full after ten bytes of the id.
filled : (write_to disk message []).0 ≡ 20
unfolding write_to write_part
filled = refl
