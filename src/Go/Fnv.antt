-- ===== src/Go/Fnv.antt =====
-- `hash/fnv`: New32a, that is FNV-1a of 32 bits.
use Prim.Native.Nat.{bit_xor}
use vidcast.Base.{ℕ, ◌*◌, ◌%◌, ◌^◌, ◌<◌, ◌≡◌, refl, [], ◌∷◌, arith, Bytes, codes}

abbrev pub u32_mod : ℕ
u32_mod = 2 ^ 32

-- Each byte is mixed in, and then the prime multiplied, modulo 2 ^ 32.
unfoldable pub write : ℕ → Bytes → ℕ
write h [] = h
write h (c ∷ s) = write ((bit_xor h c * 16777619) % u32_mod) s

-- `Sum32` after one Write.
unfoldable pub sum32 : Bytes → ℕ
unfolding write
sum32 s = write 2166136261 s

write-lt : (h : ℕ) (s : Bytes) → h < u32_mod → write h s < u32_mod
unfolding write
write-lt h [] l = l
write-lt h (c ∷ s) l = write-lt ((bit_xor h c * 16777619) % u32_mod) s (omega arith)

pub sum32-lt : (s : Bytes) → sum32 s < u32_mod
unfolding sum32
sum32-lt s = write-lt 2166136261 s (omega arith)

-- The published values of "a" and "foobar".
known_values : (sum32 (codes "a") ≡ 0xe40c292c) × (sum32 (codes "foobar") ≡ 0xbf9cf968)
unfolding sum32
known_values = (refl, refl)
