-- ===== src/Go/Space.antt =====
-- `strings.TrimSpace`: the white space of Unicode, as it is encoded in UTF-8.
use mathlib.Core.List.{reverse}
use vidcast.Base.{
  ℕ, Bool, ◌&&◌, ◌||◌, [], ◌∷◌, ◌≡◌, refl, Bytes, codes, leb, if◌then◌else◌, ◌==◌, nat_eq,
}

-- Tab, line feed, vertical tab, form feed, carriage return and space.
abbrev pub is_space : ℕ → Bool
is_space a = leb 9 a && leb a 13 || a == 32

-- U+0085 and U+00A0.
abbrev is_space_2 : ℕ → ℕ → Bool
is_space_2 a b = a == 0xC2 && (b == 0x85 || b == 0xA0)

-- U+1680, U+2000 to U+200A, U+2028, U+2029, U+202F, U+205F and U+3000.
abbrev is_space_3 : ℕ → ℕ → ℕ → Bool
is_space_3 a b c =
    a == 0xE1 && b == 0x9A && c == 0x80
    || a == 0xE2 && b == 0x80 && (leb 0x80 c && leb c 0x8A || c == 0xA8 || c == 0xA9 || c == 0xAF)
    || a == 0xE2 && b == 0x81 && c == 0x9F
    || a == 0xE3 && b == 0x80 && c == 0x80

-- The text without the white space at its head, by tests on one, two and three bytes.
unfoldable pub strip : (ℕ → ℕ → Bool) → (ℕ → ℕ → ℕ → Bool) → Bytes → Bytes
strip two three [] = []
strip two three (a ∷ []) = if is_space a then [] else a ∷ []
strip two three (a ∷ b ∷ []) =
    let rest = strip two three (b ∷ []) in
    if is_space a then rest else if two a b then [] else a ∷ b ∷ []
strip two three (a ∷ b ∷ c ∷ s) =
    let rest = strip two three (b ∷ c ∷ s) in
    let rest_2 = strip two three (c ∷ s) in
    let rest_3 = strip two three s in
    if is_space a
    then rest
    else if two a b
    then rest_2
    else if three a b c
    then rest_3
    else a ∷ b ∷ c ∷ s

-- At the tail the bytes come in reverse.
unfoldable pub trim_space : Bytes → Bytes
unfolding strip
trim_space s = reverse (
    strip (λ b a. is_space_2 a b) (λ c b a. is_space_3 a b c)
      (reverse (strip is_space_2 is_space_3 s)))

trim_both : trim_space (codes "  a b\t") ≡ codes "a b"
unfolding trim_space nat_eq
trim_both = refl
