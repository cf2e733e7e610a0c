-- ===== src/Go/Strings.antt =====
-- `strings`: the functions that the services call, on strings of bytes.
use mathlib.Core.List.{reverse}
use vidcast.Base.{
  ℕ, zero, suc, ◌+◌, ◌≡◌, refl, ◌≢◌, Bool, true, false, ◌&&◌, ◌||◌, List, [], ◌∷◌, ◌++◌, Option,
  none, some, arith, Bytes, codes, leb, if◌then◌else◌, ◌==◌, contains, nat_eq, bytes_eq, All,
}

-- `HasPrefix`.
unfoldable pub has_prefix : Bytes → Bytes → Bool
has_prefix s [] = true
has_prefix [] (p ∷ ps) = false
has_prefix (c ∷ s) (p ∷ ps) = c == p && has_prefix s ps

-- `s[n:]` for n within the string.
unfoldable pub drop : ℕ → Bytes → Bytes
drop zero s = s
drop (suc n) [] = []
drop (suc n) (c ∷ s) = drop n s

-- `TrimLeft` by a test on bytes.
unfoldable pub trim_left : (ℕ → Bool) → Bytes → Bytes
trim_left p [] = []
trim_left p (c ∷ s) = if p c then trim_left p s else c ∷ s

-- `Trim` by a test on bytes.
unfoldable pub trim : (ℕ → Bool) → Bytes → Bytes
unfolding trim_left
trim p s = reverse (trim_left p (reverse (trim_left p s)))

-- `LastIndex` of one byte; `none` is -1.
unfoldable pub last_index : ℕ → Bytes → Option ℕ
last_index c [] = none
last_index c (x ∷ s) = elim (last_index c s) [
  | some i ↦ some (suc i)
  | none ↦ if x == c then some 0 else none
]

-- `ContainsAny`.
unfoldable pub contains_any : Bytes → Bytes → Bool
contains_any [] chars = false
contains_any (c ∷ s) chars = contains chars c || contains_any s chars

abbrev pub push_head : ℕ → List Bytes → List Bytes
push_head c [] = (c ∷ []) ∷ []
push_head c (p ∷ ps) = (c ∷ p) ∷ ps

-- `Split` at one byte. There is always at least one part.
unfoldable pub split : ℕ → Bytes → List Bytes
split c [] = [] ∷ []
split c (x ∷ s) = let rest = split c s in if x == c then [] ∷ rest else push_head x rest

-- The ASCII part of `ToLower`.
unfoldable pub to_lower : Bytes → Bytes
to_lower [] = []
to_lower (c ∷ s) = (if leb b'A' c && leb c b'Z' then c + 32 else c) ∷ to_lower s

abbrev pub Lacks : ℕ → Bytes → Type 0
Lacks c = All (λ x. x ≢ c)

pub split-ne-nil : (c : ℕ) (s : Bytes) → split c s ≢ []
unfolding split
split-ne-nil c [] e = cc
split-ne-nil c (x ∷ s) e = ground (arith, split-ne-nil c s)

-- A part that ends at a separator is split off.
pub split-append : (c : ℕ) (p rest : Bytes) → Lacks c p → split c (p ++ c ∷ rest) ≡ p ∷ split c rest
unfolding split
split-append c [] rest h = ground arith
split-append c (x ∷ p) rest h = ground (arith, split-append c p rest h.1)

-- A text without separator is one part.
pub split-Lacks : (c : ℕ) (p : Bytes) → Lacks c p → split c p ≡ p ∷ []
unfolding split
split-Lacks c [] h = refl
split-Lacks c (x ∷ p) h = ground (arith, split-Lacks c p h.1)

pub push_head-Lacks :
    (c x : ℕ) (ps : List Bytes) → x ≢ c → All (Lacks c) ps → All (Lacks c) (push_head x ps)
push_head-Lacks c x [] n a = ((n, tt), tt)
push_head-Lacks c x (p ∷ ps) n a = ((n, a.0), a.1)

-- No part holds the separator.
pub split-AllLacks : (c : ℕ) (s : Bytes) → All (Lacks c) (split c s)
unfolding split
split-AllLacks c [] = (tt, tt)
split-AllLacks c (x ∷ s) = ground (arith, split-AllLacks c s, push_head-Lacks c x (split c s))

pub has_prefix-append : (p s : Bytes) → has_prefix (p ++ s) p ≡ true
unfolding has_prefix
has_prefix-append [] s = refl
has_prefix-append (c ∷ p) s = ground (arith, has_prefix-append p s)

-- A string with a prefix is the prefix and what `s[len(p):]` leaves.
pub has_prefix-split : (s p : Bytes) → has_prefix s p ≡ true → (r : Bytes) × (s ≡ p ++ r)
unfolding has_prefix
has_prefix-split s [] h = (s, refl)
has_prefix-split [] (q ∷ p) h = cc
has_prefix-split (c ∷ s) (q ∷ p) h =
    let r = has_prefix-split s p (ground arith) in (r.0, ground (arith, r.1))

split_hosts : split b',' (codes "a,,b") ≡ codes "a" ∷ [] ∷ codes "b" ∷ []
unfolding split nat_eq
split_hosts = refl

trim_slashes : trim (λ c. c == b'/') (codes "//a/b/") ≡ codes "a/b"
unfolding trim nat_eq
trim_slashes = refl

last_slash : last_index b'/' (codes "a/b/c") ≡ some 3
unfolding last_index nat_eq
last_slash = refl
