-- ===== src/Users/Follows/Slices.antt =====
-- routers/users.py: `OFFSET` and `LIMIT`.
use vidcast.Base.{
  ℕ, zero, suc, ◌+◌, ◌≡◌, refl, sym, ap, ◌∙◌, List, [], ◌∷◌, ◌++◌, map, take, arith, All, nat_eq,
  bytes_eq,
}
use vidcast.Users.Follows.{skip}

pub take-map {ℓ κ} :
    {A : Type ℓ} {B : Type κ} (f : A → B) (n : ℕ) (xs : List A)
    → take n (map f xs) ≡ map f (take n xs)
take-map f zero xs = refl
take-map f (suc n) [] = refl
take-map f (suc n) (x ∷ xs) = ap (λ ys. f x ∷ ys) (take-map f n xs)

pub skip-map {ℓ κ} :
    {A : Type ℓ} {B : Type κ} (f : A → B) (n : ℕ) (xs : List A)
    → skip n (map f xs) ≡ map f (skip n xs)
unfolding skip
skip-map f zero xs = refl
skip-map f (suc n) [] = refl
skip-map f (suc n) (x ∷ xs) = skip-map f n xs

module _ {ℓ κ} {A : Type ℓ} (P : A → Type κ) where
  pub All-take : (n : ℕ) (xs : List A) → All P xs → All P (take n xs)
  All-take zero xs a = tt
  All-take (suc n) [] a = tt
  All-take (suc n) (x ∷ xs) (p, a) = (p, All-take n xs a)

  pub All-skip : (n : ℕ) (xs : List A) → All P xs → All P (skip n xs)
  unfolding skip
  All-skip zero xs a = a
  All-skip (suc n) [] a = tt
  All-skip (suc n) (x ∷ xs) (p, a) = All-skip n xs a

skip-nil {ℓ} : {A : Type ℓ} (n : ℕ) → skip {A = A} n [] ≡ []
unfolding skip
skip-nil zero = refl
skip-nil (suc n) = refl

pub skip_add {ℓ} :
    {A : Type ℓ} (m from : ℕ) (xs : List A) → skip (from + m) xs ≡ skip m (skip from xs)
unfolding skip
skip_add m zero xs = let z : 0 + m ≡ m = omega arith in rw z refl
skip_add m (suc from) [] = skip-nil (suc from + m) ∙ sym (skip-nil m)
skip_add m (suc from) (x ∷ xs) =
    let z : suc from + m ≡ suc (from + m) = omega arith in rw z (skip_add m from xs)

take-nil {ℓ} : {A : Type ℓ} (n : ℕ) → take {A = A} n [] ≡ []
take-nil zero = refl
take-nil (suc n) = refl

pub take-append {ℓ} :
    {A : Type ℓ} (m n : ℕ) (xs : List A) → take m xs ++ take n (skip m xs) ≡ take (m + n) xs
unfolding skip
take-append zero n xs = let z : 0 + n ≡ n = omega arith in rw z refl
take-append (suc m) n [] = let z : suc m + n ≡ suc (m + n) = omega arith in rw z (take-nil n)
take-append (suc m) n (x ∷ xs) =
    let z : suc m + n ≡ suc (m + n) = omega arith in rw z (ap (λ ys. x ∷ ys) (take-append m n xs))
