-- ===== src/Xmqd/Message/Bytes.antt =====
-- Numbers and lists as bytes.
use xmq.Base.{
  ℕ, zero, suc, ◌+◌, ◌-◌, ◌*◌, ◌/◌, ◌%◌, ◌^◌, ◌<◌, ◌≤◌, ◌≡◌, refl, ap, sym, subst, ◌∙◌, List, [],
  ◌∷◌, ◌++◌, append_assoc, append-nil, All, length, take, drop, arith,
}
use native.Mathlib.Nat.{mul-le-mul_right, pow-suc}
use xmq.Xmqd.Message.{put_big, read_big}

read_big-put_big_and :
    (n v : ℕ) (bs : List ℕ) → v < 256 ^ n → read_big 0 (put_big n v ++ bs) ≡ read_big v bs
read_big-put_big_and zero v bs h = ap (λ a. read_big a bs) (omega arith)
read_big-put_big_and (suc n) v bs h =
    ap (read_big 0) (append_assoc (put_big n (v / 256)) (v % 256 ∷ []) bs)
    ∙ (read_big-put_big_and n (v / 256) (v % 256 ∷ bs) (omega (arith, h))
        ∙ ap (λ (a : ℕ). read_big a bs) (omega arith))

pub read_big-put_big : (n v : ℕ) → v < 256 ^ n → read_big 0 (put_big n v) ≡ v
read_big-put_big n v h =
    ap (read_big 0) (sym (append-nil (put_big n v))) ∙ read_big-put_big_and n v [] h

one_more : (acc b p x : ℕ) → b < 256 → x < (acc * 256 + b + 1) * p → x < (acc + 1) * (p * 256)
one_more acc b p x h k =
    let room : (acc * 256 + b + 1) * p ≤ (acc * 256 + 256) * p = mul-le-mul_right p (omega arith) in
    grind (arith, room)

-- The number in some bytes has as many bits.
read_big-lt_and :
    (bs : List ℕ) (acc : ℕ) → All (λ b. b < 256) bs → read_big acc bs < (acc + 1) * 256 ^ length bs
read_big-lt_and [] acc h = omega arith
read_big-lt_and (b ∷ bs) acc (h, k) = rw (pow-suc 256 (length bs)) (
    one_more acc b (256 ^ length bs) (read_big (acc * 256 + b) bs) h
      (read_big-lt_and bs (acc * 256 + b) k))

pub read_big-lt :
    (n : ℕ) (bs : List ℕ) → length bs ≡ n → All (λ b. b < 256) bs → read_big 0 bs < 256 ^ n
read_big-lt n bs e h =
    subst (λ (k : ℕ). read_big 0 bs < 256 ^ k) e (omega (arith, read_big-lt_and bs 0 h))

put_big-read_big_and :
    (bs : List ℕ) (m n acc : ℕ)
    → m ≡ length bs + n
    → All (λ b. b < 256) bs
    → put_big m (read_big acc bs) ≡ put_big n acc ++ bs
put_big-read_big_and [] m n acc e h =
    let same : m ≡ n = omega (arith, e) in
    ap (λ (k : ℕ). put_big k acc) same ∙ sym (append-nil (put_big n acc))
put_big-read_big_and (b ∷ bs) m n acc e (h, k) =
    let high : (acc * 256 + b) / 256 ≡ acc = omega (arith, h) in
    let low : (acc * 256 + b) % 256 ≡ b = omega (arith, h) in
    put_big-read_big_and bs m (suc n) (acc * 256 + b) (omega (arith, e)) k
    ∙ (ap (λ xs. xs ++ bs)
          (ap (λ (c : ℕ). put_big n c ++ ((acc * 256 + b) % 256 ∷ [])) high
            ∙ ap (λ (c : ℕ). put_big n acc ++ (c ∷ [])) low)
        ∙ append_assoc (put_big n acc) (b ∷ []) bs)

pub put_big-read_big :
    (n : ℕ) (bs : List ℕ) → length bs ≡ n → All (λ b. b < 256) bs → put_big n (read_big 0 bs) ≡ bs
put_big-read_big n bs e h = put_big-read_big_and bs n 0 0 (omega (arith, e)) h

take-append : (xs ys : List ℕ) → take (length xs) (xs ++ ys) ≡ xs
take-append [] ys = refl
take-append (x ∷ xs) ys = ap (λ zs. x ∷ zs) (take-append xs ys)

drop-append : (xs ys : List ℕ) → drop (length xs) (xs ++ ys) ≡ ys
drop-append [] ys = refl
drop-append (x ∷ xs) ys = drop-append xs ys

pub take_exactly : (n : ℕ) (xs ys : List ℕ) → length xs ≡ n → take n (xs ++ ys) ≡ xs
take_exactly n xs ys e = subst (λ k. take k (xs ++ ys) ≡ xs) e (take-append xs ys)

pub drop_exactly : (n : ℕ) (xs ys : List ℕ) → length xs ≡ n → drop n (xs ++ ys) ≡ ys
drop_exactly n xs ys e = subst (λ k. drop k (xs ++ ys) ≡ ys) e (drop-append xs ys)

pub take-drop : (n : ℕ) (xs : List ℕ) → take n xs ++ drop n xs ≡ xs
take-drop zero xs = refl
take-drop (suc n) [] = refl
take-drop (suc n) (x ∷ xs) = ap (λ zs. x ∷ zs) (take-drop n xs)

pub length-take : (n : ℕ) (xs : List ℕ) → n ≤ length xs → length (take n xs) ≡ n
length-take zero xs h = refl
length-take (suc n) [] h = omega (arith, h)
length-take (suc n) (x ∷ xs) h = ap suc (length-take n xs (omega (arith, h)))

pub length-drop : (n : ℕ) (xs : List ℕ) → length (drop n xs) ≡ length xs - n
length-drop zero xs = omega arith
length-drop (suc n) [] = omega arith
length-drop (suc n) (x ∷ xs) = length-drop n xs ∙ omega arith

drop_nil : (k : ℕ) → drop {A = ℕ} k [] ≡ []
drop_nil zero = refl
drop_nil (suc k) = refl

pub drop-drop : (n m k : ℕ) (xs : List ℕ) → k ≡ n + m → drop k xs ≡ drop m (drop n xs)
drop-drop zero m k xs e = let same : k ≡ m = omega (arith, e) in ap (λ (j : ℕ). drop j xs) same
drop-drop (suc n) m k [] e = drop_nil k ∙ sym (drop_nil m)
drop-drop (suc n) m zero (x ∷ xs) e = absurd (omega (arith, e))
drop-drop (suc n) m (suc k) (x ∷ xs) e = drop-drop n m k xs (omega (arith, e))

pub All-take : (P : ℕ → Type 0) (n : ℕ) (xs : List ℕ) → All P xs → All P (take n xs)
All-take P zero xs h = tt
All-take P (suc n) [] h = tt
All-take P (suc n) (x ∷ xs) (p, h) = (p, All-take P n xs h)

pub All-drop : (P : ℕ → Type 0) (n : ℕ) (xs : List ℕ) → All P xs → All P (drop n xs)
All-drop P zero xs h = h
All-drop P (suc n) [] h = tt
All-drop P (suc n) (x ∷ xs) (p, h) = All-drop P n xs h

pub take-append_first : (n : ℕ) (xs ys : List ℕ) → n ≤ length xs → take n (xs ++ ys) ≡ take n xs
take-append_first zero xs ys h = refl
take-append_first (suc n) [] ys h = absurd (omega (arith, h))
take-append_first (suc n) (x ∷ xs) ys h =
    ap (λ zs. x ∷ zs) (take-append_first n xs ys (omega (arith, h)))

pub take-append_both :
    (k n : ℕ) (xs ys : List ℕ) → k ≡ length xs + n → take k (xs ++ ys) ≡ xs ++ take n ys
take-append_both k n [] ys e = let same : k ≡ n = omega (arith, e) in ap (λ (j : ℕ). take j ys) same
take-append_both zero n (x ∷ xs) ys e = absurd (omega (arith, e))
take-append_both (suc k) n (x ∷ xs) ys e =
    ap (λ zs. x ∷ zs) (take-append_both k n xs ys (omega (arith, e)))

pub take_all : (n : ℕ) (xs : List ℕ) → n ≡ length xs → take n xs ≡ xs
take_all n xs e =
    subst (λ (k : ℕ). take k xs ≡ xs) (sym e)
      (ap (take (length xs)) (sym (append-nil xs)) ∙ take-append xs [])
