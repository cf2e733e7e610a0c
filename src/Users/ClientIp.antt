-- ===== src/Users/ClientIp.antt =====
-- services/users/app/rate_limit.py: the address that a request is counted under.
use mathlib.Core.List.{reverse, reverse_aux, reverse-reverse}
use vidcast.Base.{
  ℕ, ◌≡◌, ◌≢◌, refl, ap, ◌∙◌, Bool, Bool-cases, false, inl, inr, List, [], ◌∷◌, ◌++◌, Option, none,
  some, arith, All, codes, ◌==◌, nat_eq, bytes_eq,
}
use vidcast.Go.Strings.{trim, trim_left, split, split-ne-nil, split-Lacks, Lacks}
use vidcast.Users.Text.{Str, is_space}

-- The headers `x-real-ip` and `x-forwarded-for`, and `request.client.host`.
pub record Source : Type 0 where
  pub real_ip : Option Str
  pub forwarded_for : Option Str
  pub client : Option Str

-- `[-1]`; a list of parts is never empty.
unfoldable pub last_part : List Str → Str
last_part [] = []
last_part (p ∷ []) = p
last_part (p ∷ q ∷ ps) = last_part (q ∷ ps)

-- `str.strip`.
unfoldable pub strip : Str → Str
unfolding trim
strip s = trim is_space s

abbrev pub peer_address : Source → Str
peer_address r = elim r.client [ some host ↦ host | none ↦ codes "unknown" ]

abbrev pub from_forwarded : Source → Str
from_forwarded r = elim r.forwarded_for [
  | some (c ∷ s) ↦ strip (last_part (split b',' (c ∷ s)))
  | _ ↦ peer_address r
]

-- `get_client_ip`.
unfoldable pub get_client_ip : Source → Str
unfolding strip last_part
get_client_ip r = elim r.real_ip [ some (c ∷ s) ↦ strip (c ∷ s) | _ ↦ from_forwarded r ]

last_part-cons : (p : Str) (ps : List Str) → ps ≢ [] → last_part (p ∷ ps) ≡ last_part ps
unfolding last_part
last_part-cons p [] h = absurd (h refl)
last_part-cons p (q ∷ ps) h = refl

-- What is before a comma has no part in the last hop.
split-tail :
    (c : ℕ) (p s : Str)
    → (q : Str) × (qs : List Str) × (split c (p ++ c ∷ s) ≡ q ∷ qs)
      × (qs ≢ [])
      × (last_part qs ≡ last_part (split c s))
unfolding split
split-tail c [] s = ([], split c s, ground arith, split-ne-nil c s, refl)
split-tail c (x ∷ p) s =
    let (q, qs, e, n, l) = split-tail c p s in
    elim (Bool-cases (x == c)) [
      | inl hit ↦ ([], q ∷ qs, rw (hit, e) refl, (λ z. cc), last_part-cons q qs n ∙ l)
      | inr miss ↦ (x ∷ q, qs, rw (miss, e) refl, n, l)
    ]

last_part-split : (c : ℕ) (p s : Str) → last_part (split c (p ++ c ∷ s)) ≡ last_part (split c s)
last_part-split c p s =
    let (q, qs, e, n, l) = split-tail c p s in ap last_part e ∙ last_part-cons q qs n ∙ l

trim_left-solid : (p : ℕ → Bool) (s : Str) → All (λ c. p c ≡ false) s → trim_left p s ≡ s
unfolding trim_left
trim_left-solid p [] h = refl
trim_left-solid p (c ∷ s) (i, h) = rw i refl

All-reverse_aux : (P : ℕ → Type 0) (s t : Str) → All P s → All P t → All P (reverse_aux s t)
All-reverse_aux P [] t h k = k
All-reverse_aux P (c ∷ s) t (i, h) k = All-reverse_aux P s (c ∷ t) h (i, k)

-- A text that neither begins nor ends with space: an address has none at all.
strip-space : (s : Str) → All (λ c. is_space c ≡ false) s → strip (b' ' ∷ s) ≡ s
unfolding strip trim trim_left
strip-space s h =
    let left = trim_left-solid is_space s h in
    let back = All-reverse_aux (λ c. is_space c ≡ false) s [] h tt in
    rw (left, trim_left-solid is_space (reverse s) back) (reverse-reverse s)

from_forwarded-append :
    (r : Source) (p : Str) (c : ℕ) (s : Str)
    → r.forwarded_for ≡ some (p ++ c ∷ s)
    → from_forwarded r ≡ strip (last_part (split b',' (p ++ c ∷ s)))
unfolding strip last_part
from_forwarded-append r [] c s e = rw e refl
from_forwarded-append r (x ∷ p) c s e = rw e refl

-- A client cannot choose the address it is counted under: without `x-real-ip`, and with the proxy
-- adding the peer that it saw to `x-forwarded-for`, that peer is the key, whatever the client had
-- sent in the header.
pub get_client_ip-forwarded :
    (r : Source) (claimed peer : Str)
    → r.real_ip ≡ none
    → r.forwarded_for ≡ some (claimed ++ b',' ∷ b' ' ∷ peer)
    → Lacks b',' peer
    → All (λ c. is_space c ≡ false) peer
    → get_client_ip r ≡ peer
unfolding get_client_ip
get_client_ip-forwarded r claimed peer d e n h =
    let last : last_part (split b',' (b' ' ∷ peer)) ≡ b' ' ∷ peer =
      ap last_part (split-Lacks b',' (b' ' ∷ peer) ((λ z. cc), n)) ∙ unfold last_part in refl in
    rw d (from_forwarded-append r claimed b',' (b' ' ∷ peer) e)
    ∙ ap strip (last_part-split b',' claimed (b' ' ∷ peer) ∙ last)
    ∙ strip-space peer h
