-- ===== src/Xmqd/Guid/Hex.antt =====
-- The sixteen digits of an id.
use xmq.Base.{
  ℕ, ◌+◌, ◌-◌, ◌*◌, ◌/◌, ◌%◌, ◌^◌, ◌<◌, ◌≡◌, ◌∙◌, ap, sym, List, [], ◌∷◌, ◌++◌, append-nil, ltb,
  if◌then◌else◌, arith,
}
use xmq.Xmqd.Guid.{hex_digit, hex_byte, hex}

-- Digits read back, from the highest.
undigit : ℕ → ℕ
undigit d = if ltb d 58 then d - 48 else d - 87

unfoldable pub read_hex : ℕ → List ℕ → ℕ
unfolding undigit
read_hex acc [] = acc
read_hex acc (d ∷ ds) = read_hex (acc * 16 + undigit d) ds

undigit-hex_digit : (n : ℕ) → n < 16 → undigit (hex_digit n) ≡ n
unfolding undigit hex_digit
undigit-hex_digit n h = ground arith

read_hex-byte :
    (acc b : ℕ) (ds : List ℕ)
    → b < 256
    → read_hex acc (hex_byte b ++ ds) ≡ read_hex (acc * 256 + b) ds
unfolding read_hex hex_byte
read_hex-byte acc b ds h =
    rw (undigit-hex_digit (b / 16) (omega arith), undigit-hex_digit (b % 16) (omega arith))
      (ap (λ (a : ℕ). read_hex a ds) (omega arith))

read_hex-last : (acc b : ℕ) → b < 256 → read_hex acc (hex_byte b) ≡ acc * 256 + b
unfolding read_hex
read_hex-last acc b h = ap (read_hex acc) (sym (append-nil (hex_byte b))) ∙ read_hex-byte acc b [] h

-- The bytes of a number, put together from the highest.
abbrev byte : ℕ → ℕ → ℕ
byte g k = g / 2 ^ k % 256

abbrev joined : ℕ → ℕ
joined g =
    let high = (((0 * 256 + byte g 56) * 256 + byte g 48) * 256 + byte g 40) * 256 + byte g 32 in
    (((high * 256 + byte g 24) * 256 + byte g 16) * 256 + byte g 8) * 256 + byte g 0

joined_lem : (g : ℕ) → g < 2 ^ 64 → joined g ≡ g
joined_lem g h = omega arith

-- The digits of an id, read as a number in base 16, are the id.
pub read_hex-hex : (g : ℕ) → g < 2 ^ 64 → read_hex 0 (hex g) ≡ g
unfolding hex
read_hex-hex g h =
    read_hex-byte 0 (byte g 56) _ (omega arith)
    ∙ (read_hex-byte _ (byte g 48) _ (omega arith)
        ∙ (read_hex-byte _ (byte g 40) _ (omega arith)
            ∙ (read_hex-byte _ (byte g 32) _ (omega arith)
                ∙ (read_hex-byte _ (byte g 24) _ (omega arith)
                    ∙ (read_hex-byte _ (byte g 16) _ (omega arith)
                        ∙ (read_hex-byte _ (byte g 8) _ (omega arith)
                            ∙ (read_hex-last _ (byte g 0) (omega arith) ∙ joined_lem g h)))))))
