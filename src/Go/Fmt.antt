-- ===== src/Go/Fmt.antt =====
-- `fmt`: the verb %q, that is `strconv.Quote`. It is exact on ASCII; a byte from 128 on is copied,
-- as Quote does with the bytes of a printable character.
use vidcast.Base.{ℕ, ◌≡◌, refl, [], ◌∷◌, ◌++◌, Bytes, codes, ltb, if◌then◌else◌, ◌==◌, nat_eq, ◌||◌}
use vidcast.Go.Hex

-- The letter of a short escape.
unfoldable pub escape_letter : ℕ → Bytes
escape_letter c =
    if c == 7
    then b'a' ∷ []
    else if c == 8
    then b'b' ∷ []
    else if c == 12
    then b'f' ∷ []
    else if c == 10
    then b'n' ∷ []
    else if c == 13
    then b'r' ∷ []
    else if c == 9
    then b't' ∷ []
    else if c == 11
    then b'v' ∷ []
    else []

abbrev escape_control : ℕ → Bytes → Bytes
escape_control c [] = codes "\\x" ++ Hex.encode (c ∷ [])
escape_control c (l ∷ s) = b'\\' ∷ l ∷ s

unfoldable pub quote_byte : ℕ → Bytes
unfolding escape_letter Hex.encode
quote_byte c =
    if c == b'"' || c == b'\\'
    then b'\\' ∷ c ∷ []
    else if ltb c 32 || c == 127
    then escape_control c (escape_letter c)
    else c ∷ []

unfoldable pub quote_bytes : Bytes → Bytes
unfolding quote_byte
quote_bytes [] = []
quote_bytes (c ∷ s) = quote_byte c ++ quote_bytes s

unfoldable pub quote : Bytes → Bytes
unfolding quote_bytes
quote s = b'"' ∷ quote_bytes s ++ b'"' ∷ []

quote_slug : quote (codes "a\\b") ≡ codes "\"a\\\\b\""
unfolding quote nat_eq
quote_slug = refl
