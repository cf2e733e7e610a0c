-- ===== src/Go/Hex.antt =====
-- `encoding/hex`: EncodeToString.
use vidcast.Base.{
  ℕ, ◌+◌, ◌-◌, ◌*◌, ◌/◌, ◌%◌, ◌≡◌, ◌<◌, ap₂, refl, [], ◌∷◌, arith, Bytes, codes, ltb, if◌then◌else◌,
  length,
}

-- The character of a digit below 16.
hex_digit : ℕ → ℕ
hex_digit d = if ltb d 10 then b'0' + d else b'a' + (d - 10)

unfoldable pub encode : Bytes → Bytes
unfolding hex_digit
encode [] = []
encode (b ∷ s) = hex_digit (b / 16) ∷ hex_digit (b % 16) ∷ encode s

pub length-encode : (s : Bytes) → length (encode s) ≡ 2 * length s
unfolding encode
length-encode [] = refl
length-encode (b ∷ s) = omega (arith, length-encode s)

encode_bytes : encode (0 ∷ 171 ∷ []) ≡ codes "00ab"
unfolding encode
encode_bytes = refl

-- Texts of bytes.
abbrev pub AreBytes : Bytes → Type 0
AreBytes [] = Unit
AreBytes (b ∷ s) = (b < 256) × AreBytes s

hex_digit_injective : (c d : ℕ) → c < 16 → d < 16 → hex_digit c ≡ hex_digit d → c ≡ d
unfolding hex_digit
hex_digit_injective c d h k e = ground (arith, h, k, e)

halves_injective : (b c : ℕ) → b / 16 ≡ c / 16 → b % 16 ≡ c % 16 → b ≡ c
halves_injective b c h k = omega (arith, h, k)

-- Two texts of bytes with the same hexadecimal form are one text.
pub encode_injective : (s t : Bytes) → AreBytes s → AreBytes t → encode s ≡ encode t → s ≡ t
unfolding encode
encode_injective [] [] h k e = refl
encode_injective [] (c ∷ t) h k e = cc
encode_injective (b ∷ s) [] h k e = cc
encode_injective (b ∷ s) (c ∷ t) h k e =
    let high : hex_digit (b / 16) ≡ hex_digit (c / 16) = ground (arith, e) in
    let low : hex_digit (b % 16) ≡ hex_digit (c % 16) = ground (arith, e) in
    let rest : encode s ≡ encode t = ground (arith, e) in
    let byte : b ≡ c =
      halves_injective b c
        (hex_digit_injective (b / 16) (c / 16) (omega (arith, h.0)) (omega (arith, k.0)) high)
        (hex_digit_injective (b % 16) (c % 16) (omega arith) (omega arith) low) in
    ap₂ (λ x xs. x ∷ xs) byte (encode_injective s t h.1 k.1 rest)
