-- ===== src/Users/Text.antt =====
-- What services/users uses of Python's strings. A `str` is the list of its code points.
use vidcast.Base.{
  ℕ, ◌+◌, ◌<◌, ◌≤◌, ◌≡◌, refl, ap₂, Bool, ◌&&◌, ◌||◌, [], ◌∷◌, map, arith, All, Bytes, length,
  if◌then◌else◌, ◌==◌, ltb, leb, nat_eq, bytes_eq,
}
use vidcast.Go.Strings.{has_prefix}

abbrev pub Str : Type 0
Str = Bytes

-- `len(s.encode("utf-8"))`
abbrev pub utf8_width : ℕ → ℕ
utf8_width c = if ltb c 0x80 then 1 else if ltb c 0x800 then 2 else if ltb c 0x10000 then 3 else 4

unfoldable pub utf8_length : Str → ℕ
utf8_length [] = 0
utf8_length (c ∷ s) = utf8_width c + utf8_length s

pub utf8_length_lower : (s : Str) → length s ≤ utf8_length s
unfolding utf8_length
utf8_length_lower [] = omega arith
utf8_length_lower (c ∷ s) = ground (arith, utf8_length_lower s)

-- `t in s`
unfoldable pub occurs : Str → Str → Bool
unfolding has_prefix
occurs t [] = has_prefix [] t
occurs t (c ∷ s) = let rest = occurs t s in has_prefix (c ∷ s) t || rest

-- `str.isspace` on the code points of Latin-1, in which header values are decoded.
abbrev pub is_space : ℕ → Bool
is_space c = (leb 9 c && leb c 13) || (leb 28 c && leb c 32) || c == 133 || c == 160

-- `str.lower` on ASCII.
abbrev pub lower_ascii : ℕ → ℕ
lower_ascii c = if leb 65 c && leb c 90 then c + 32 else c

abbrev pub IsAscii : Str → Type 0
IsAscii = All (λ c. c < 128)

pub lower_ascii_idem : (s : Str) → map lower_ascii (map lower_ascii s) ≡ map lower_ascii s
lower_ascii_idem [] = refl
lower_ascii_idem (c ∷ s) = ap₂ (λ x xs. x ∷ xs) (ground arith) (lower_ascii_idem s)

pub lower-IsAscii : (s : Str) → IsAscii s → IsAscii (map lower_ascii s)
lower-IsAscii [] h = tt
lower-IsAscii (c ∷ s) (i, h) = (ground arith, lower-IsAscii s h)
