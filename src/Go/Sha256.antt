-- ===== src/Go/Sha256.antt =====
-- `crypto/sha256`: Sum256, on words of 32 bits.
use Prim.Native.Nat.{bit_xor, bit_and}
use vidcast.Base.{
  ℕ, zero, suc, ◌+◌, ◌-◌, ◌*◌, ◌/◌, ◌%◌, ◌^◌, ◌≡◌, refl, List, [], ◌∷◌, ◌++◌, arith, Bytes, codes,
  length, length-append, take,
}
use vidcast.Go.Fnv.{u32_mod}
use vidcast.Go.Hex
use vidcast.Go.Strings.{drop}

abbrev word : ℕ → ℕ
word x = x % u32_mod

-- Rotation and shift to the right.
abbrev rotr : ℕ → ℕ → ℕ
rotr n x = x / 2 ^ n + (x % 2 ^ n) * 2 ^ (32 - n)

abbrev xor3 : ℕ → ℕ → ℕ → ℕ
xor3 x y z = bit_xor (bit_xor x y) z

-- The constants of the rounds.
abbrev round_constants : List ℕ
round_constants =
    0x428a2f98 ∷ 0x71374491 ∷ 0xb5c0fbcf ∷ 0xe9b5dba5 ∷ 0x3956c25b ∷ 0x59f111f1 ∷ 0x923f82a4
    ∷ 0xab1c5ed5 ∷ 0xd807aa98 ∷ 0x12835b01 ∷ 0x243185be ∷ 0x550c7dc3 ∷ 0x72be5d74 ∷ 0x80deb1fe
    ∷ 0x9bdc06a7 ∷ 0xc19bf174 ∷ 0xe49b69c1 ∷ 0xefbe4786 ∷ 0x0fc19dc6 ∷ 0x240ca1cc ∷ 0x2de92c6f
    ∷ 0x4a7484aa ∷ 0x5cb0a9dc ∷ 0x76f988da ∷ 0x983e5152 ∷ 0xa831c66d ∷ 0xb00327c8 ∷ 0xbf597fc7
    ∷ 0xc6e00bf3 ∷ 0xd5a79147 ∷ 0x06ca6351 ∷ 0x14292967 ∷ 0x27b70a85 ∷ 0x2e1b2138 ∷ 0x4d2c6dfc
    ∷ 0x53380d13 ∷ 0x650a7354 ∷ 0x766a0abb ∷ 0x81c2c92e ∷ 0x92722c85 ∷ 0xa2bfe8a1 ∷ 0xa81a664b
    ∷ 0xc24b8b70 ∷ 0xc76c51a3 ∷ 0xd192e819 ∷ 0xd6990624 ∷ 0xf40e3585 ∷ 0x106aa070 ∷ 0x19a4c116
    ∷ 0x1e376c08 ∷ 0x2748774c ∷ 0x34b0bcb5 ∷ 0x391c0cb3 ∷ 0x4ed8aa4a ∷ 0x5b9cca4f ∷ 0x682e6ff3
    ∷ 0x748f82ee ∷ 0x78a5636f ∷ 0x84c87814 ∷ 0x8cc70208 ∷ 0x90befffa ∷ 0xa4506ceb ∷ 0xbef9a3f7
    ∷ 0xc67178f2 ∷ []

record State : Type 0 where
  a : ℕ
  b : ℕ
  c : ℕ
  d : ℕ
  e : ℕ
  f : ℕ
  g : ℕ
  h : ℕ

abbrev initial : State
initial = record {
  a = 0x6a09e667;
  b = 0xbb67ae85;
  c = 0x3c6ef372;
  d = 0xa54ff53a;
  e = 0x510e527f;
  f = 0x9b05688c;
  g = 0x1f83d9ab;
  h = 0x5be0cd19;
}

abbrev nth : ℕ → List ℕ → ℕ
nth n [] = 0
nth zero (w ∷ ws) = w
nth (suc n) (w ∷ ws) = nth n ws

-- The word that follows a window of 16 words of the schedule.
next_word : List ℕ → ℕ
next_word ws =
    let x = nth 1 ws in
    let y = nth 14 ws in
    word (
      nth 0 ws
      + xor3 (rotr 7 x) (rotr 18 x) (x / 2 ^ 3)
      + nth 9 ws
      + xor3 (rotr 17 y) (rotr 19 y) (y / 2 ^ 10))

round : ℕ → ℕ → State → State
round k w s =
    let choice = bit_xor (bit_and s.e s.f) (bit_and (u32_mod - 1 - s.e) s.g) in
    let majority = xor3 (bit_and s.a s.b) (bit_and s.a s.c) (bit_and s.b s.c) in
    let t = s.h + xor3 (rotr 6 s.e) (rotr 11 s.e) (rotr 25 s.e) + choice + k + w in
    let u = xor3 (rotr 2 s.a) (rotr 13 s.a) (rotr 22 s.a) + majority in
    record {
      a = word (t + u);
      b = s.a;
      c = s.b;
      d = s.c;
      e = word (s.d + t);
      f = s.e;
      g = s.f;
      h = s.g;
    }

rounds : List ℕ → List ℕ → State → State
unfolding next_word round
rounds [] ws s = s
rounds (k ∷ ks) ws s = rounds ks (drop 1 ws ++ next_word ws ∷ []) (round k (nth 0 ws) s)

-- One block of 16 words.
compress : List ℕ → State → State
unfolding rounds
compress ws s =
    let t = rounds round_constants ws s in
    record {
      a = word (s.a + t.a);
      b = word (s.b + t.b);
      c = word (s.c + t.c);
      d = word (s.d + t.d);
      e = word (s.e + t.e);
      f = word (s.f + t.f);
      g = word (s.g + t.g);
      h = word (s.h + t.h);
    }

blocks : ℕ → List ℕ → State → State
unfolding compress
blocks zero ws s = s
blocks (suc n) ws s = blocks n (drop 16 ws) (compress (take 16 ws) s)

-- The lowest n bytes of a number, the highest first.
big_endian : ℕ → ℕ → Bytes
big_endian zero x = []
big_endian (suc n) x = big_endian n (x / 256) ++ (x % 256) ∷ []

words : Bytes → List ℕ
words (p ∷ q ∷ r ∷ s ∷ rest) = (((p * 256 + q) * 256 + r) * 256 + s) ∷ words rest
words _ = []

zeros : ℕ → Bytes
zeros zero = []
zeros (suc n) = 0 ∷ zeros n

block_count : ℕ → ℕ
block_count n = (n + 72) / 64

pad : Bytes → Bytes
unfolding zeros big_endian block_count
pad s = let n = length s in s ++ 128 ∷ zeros (64 * block_count n - n - 9) ++ big_endian 8 (8 * n)

digest : State → Bytes
unfolding big_endian
digest s =
    big_endian 4 s.a
    ++ big_endian 4 s.b
    ++ big_endian 4 s.c
    ++ big_endian 4 s.d
    ++ big_endian 4 s.e
    ++ big_endian 4 s.f
    ++ big_endian 4 s.g
    ++ big_endian 4 s.h

-- `Sum256`.
unfoldable pub sum256 : Bytes → Bytes
unfolding pad words blocks digest block_count drop
sum256 s = digest (blocks (block_count (length s)) (words (pad s)) initial)

-- The published values of the empty text and of "abc".
known_digests :
    (Hex.encode (sum256 [])
      ≡ codes "e3b0c44298fc1c149afbf4c8996fb92427ae41e4649b934ca495991b7852b855")
    × (Hex.encode (sum256 (codes "abc"))
        ≡ codes "ba7816bf8f01cfea414140de5dae2223b00361a396177a9cb410ff61f20015ad")
unfolding sum256 Hex.encode
known_digests = (refl, refl)

length-big_endian : (n x : ℕ) → length (big_endian n x) ≡ n
unfolding big_endian
length-big_endian zero x = refl
length-big_endian (suc n) x =
    omega (
      arith,
      length-append (big_endian n (x / 256)) ((x % 256) ∷ []),
      length-big_endian n (x / 256),
    )

pub length-sum256 : (s : Bytes) → length (sum256 s) ≡ 32
unfolding sum256 digest big_endian
length-sum256 s = refl
