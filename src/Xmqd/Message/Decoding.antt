-- ===== src/Xmqd/Message/Decoding.antt =====
-- What is read back from the bytes of a message.
use xmq.Base.{
  ℕ, ◌+◌, ◌^◌, ◌<◌, ◌≤◌, ◌≡◌, refl, ap, ◌∙◌, false, none, some, List, ◌++◌, append_assoc, All,
  length, length-append, take, drop, ltb, Bool-cases, ◌⊎◌, inl, inr, arith,
}
use xmq.Xmqd.Message.{Message, put_big, read_big, decode_message, min_valid_msg_length}
use xmq.Xmqd.Message.Bytes.{
  read_big-put_big, read_big-lt, put_big-read_big, take_exactly, drop_exactly, take-drop,
  length-take, length-drop, drop-drop, All-take, All-drop,
}

-- The first two fields as bytes, and the message.
abbrev pub prefix : Message → List ℕ
prefix m = put_big 8 m.timestamp ++ put_big 2 m.attempts

abbrev pub encoded : Message → List ℕ
encoded m = prefix m ++ (m.id ++ m.body)

-- The id has sixteen bytes, and the numbers have 64 and 16 bits.
pub record IsMessage (m : Message) : Type 0 where
  pub id_length : length m.id ≡ 16
  pub word : m.timestamp < 2 ^ 64
  pub short : m.attempts < 2 ^ 16

-- The bytes of a message with an id of sixteen bytes, a timestamp of 64 bits and attempts of 16 bits
-- are read back as the message.
pub decode_message-encoded : (m : Message) → IsMessage m → decode_message (encoded m) ≡ some m
unfolding decode_message
decode_message-encoded m h =
    let enough : ltb (length (encoded m)) min_valid_msg_length ≡ false =
      ground (arith, length-append m.id m.body, h.id_length) in
    rw enough λ t. some (record {
      id = take_exactly 16 m.id m.body h.id_length t;
      body = drop_exactly 16 m.id m.body h.id_length t;
      timestamp = read_big-put_big 8 m.timestamp h.word t;
      attempts = read_big-put_big 2 m.attempts h.short t;
    })

abbrev pub IsByte : ℕ → Type 0
IsByte b = b < 256

field_back :
    (n m : ℕ) (b : List ℕ)
    → All IsByte b
    → m + n ≤ length b
    → put_big n (read_big 0 (take n (drop m b))) ≡ take n (drop m b)
field_back n m b bytes h =
    put_big-read_big n (take n (drop m b))
      (length-take n (drop m b) (omega (arith, length-drop m b, h)))
      (All-take IsByte n (drop m b) (All-drop IsByte m b bytes))

cut : (n m k : ℕ) (b : List ℕ) → k ≡ m + n → take n (drop m b) ++ drop k b ≡ drop m b
cut n m k b e = ap (λ xs. take n (drop m b) ++ xs) (drop-drop m n k b e) ∙ take-drop n (drop m b)

encoded_back :
    (b : List ℕ)
    → All IsByte b
    → 26 ≤ length b
    → (put_big 8 (read_big 0 (take 8 b)) ++ put_big 2 (read_big 0 (take 2 (drop 8 b))))
        ++ (take 16 (drop 10 b) ++ drop 26 b)
      ≡ b
encoded_back b bytes h =
    append_assoc (put_big 8 (read_big 0 (take 8 b))) (put_big 2 (read_big 0 (take 2 (drop 8 b))))
      (take 16 (drop 10 b) ++ drop 26 b)
    ∙ (ap
          (λ xs.
            xs
            ++ (put_big 2 (read_big 0 (take 2 (drop 8 b))) ++ (take 16 (drop 10 b) ++ drop 26 b)))
          (field_back 8 0 b bytes (omega (arith, h)))
        ∙ (ap (λ xs. take 8 b ++ (xs ++ (take 16 (drop 10 b) ++ drop 26 b)))
              (field_back 2 8 b bytes (omega (arith, h)))
            ∙ (ap (λ xs. take 8 b ++ (take 2 (drop 8 b) ++ xs)) (cut 16 10 26 b refl)
                ∙ (ap (λ xs. take 8 b ++ xs) (cut 2 8 10 b refl) ∙ take-drop 8 b))))

abbrev read_back : List ℕ → Message
read_back b = record {
  id = take 16 (drop 10 b);
  body = drop 26 b;
  timestamp = read_big 0 (take 8 b);
  attempts = read_big 0 (take 2 (drop 8 b));
}

field_lt :
    (n m : ℕ) (b : List ℕ)
    → All IsByte b
    → m + n ≤ length b
    → read_big 0 (take n (drop m b)) < 256 ^ n
field_lt n m b bytes h =
    read_big-lt n (take n (drop m b)) (length-take n (drop m b) (omega (arith, length-drop m b, h)))
      (All-take IsByte n (drop m b) (All-drop IsByte m b bytes))

read_back-IsMessage : (b : List ℕ) → All IsByte b → 26 ≤ length b → IsMessage (read_back b)
read_back-IsMessage b bytes h = record {
  id_length = length-take 16 (drop 10 b) (omega (arith, length-drop 10 b, h));
  word = field_lt 8 0 b bytes (omega (arith, h));
  short = field_lt 2 8 b bytes (omega (arith, h));
}

-- Bytes are refused if there are fewer than 26. If there are 26 or more, a message is read, with an id
-- of sixteen bytes, a timestamp of 64 bits and attempts of 16 bits, and its bytes are those that were
-- read.
pub decode_message_lem :
    (b : List ℕ)
    → All IsByte b
    → ((length b < 26) × (decode_message b ≡ none))
      ⊎ ((26 ≤ length b)
          × ((m : Message) × (decode_message b ≡ some m) × IsMessage m × (encoded m ≡ b)))
unfolding decode_message
decode_message_lem b bytes = elim (Bool-cases (ltb (length b) min_valid_msg_length)) [
  | inl short ↦ inl (ground (arith, short), rw short refl)
  | inr e ↦
      let enough : 26 ≤ length b = ground (arith, e) in
      inr (
        enough,
        (read_back b, rw e refl, read_back-IsMessage b bytes enough, encoded_back b bytes enough),
      )
]
