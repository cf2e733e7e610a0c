-- ===== src/Users/Table.antt =====
-- Tables of a database: rows in no particular order, searched by a test.
use vidcast.Base.{
  subst, ◌≡◌, refl, Bool, true, false, not, ◌||◌, Bool-cases, inl, inr, List, [], ◌∷◌, Option, none,
  some, arith, All, if◌then◌else◌,
}

module _ {ℓ} {A : Type ℓ} where
  -- `.filter(p).first()`
  unfoldable pub first : (A → Bool) → List A → Option A
  first p [] = none
  first p (x ∷ xs) = if p x then some x else first p xs

  unfoldable pub any : (A → Bool) → List A → Bool
  any p [] = false
  any p (x ∷ xs) = p x || any p xs

  -- The rows that pass.
  unfoldable pub keep : (A → Bool) → List A → List A
  keep p [] = []
  keep p (x ∷ xs) = let rest = keep p xs in if p x then x ∷ rest else rest

  -- No row clashes with a later one.
  abbrev pub Apart : (A → A → Bool) → List A → Type 0
  Apart clash [] = Unit
  Apart clash (x ∷ xs) = (any (clash x) xs ≡ false) × Apart clash xs

  pub first-any : (p : A → Bool) (xs : List A) → first p xs ≡ none → any p xs ≡ false
  unfolding first any
  first-any p [] h = refl
  first-any p (x ∷ xs) h = ground (arith, h, first-any p xs)

  pub any-first : (p : A → Bool) (xs : List A) → any p xs ≡ false → first p xs ≡ none
  unfolding first any
  any-first p [] h = refl
  any-first p (x ∷ xs) h = ground (arith, h, any-first p xs)

  -- What is found passes.
  pub first-passes : (p : A → Bool) (xs : List A) (x : A) → first p xs ≡ some x → p x ≡ true
  unfolding first
  first-passes p [] x h = cc
  first-passes p (y ∷ xs) x h = elim (Bool-cases (p y)) [
    | inl hit ↦ ground (arith, h, hit)
    | inr miss ↦ first-passes p xs x (ground (arith, h, miss))
  ]

  pub any-keep : (p q : A → Bool) (xs : List A) → any p xs ≡ false → any p (keep q xs) ≡ false
  unfolding any keep
  any-keep p q [] h = refl
  any-keep p q (x ∷ xs) h = ground (arith, h, any-keep p q xs)

  pub keep-Apart :
      (clash : A → A → Bool) (q : A → Bool) (xs : List A) → Apart clash xs → Apart clash (keep q xs)
  unfolding keep
  keep-Apart clash q [] h = tt
  keep-Apart clash q (x ∷ xs) (n, h) =
      ground (arith, keep-Apart clash q xs h, any-keep (clash x) q xs n)

  -- A row that is kept is still found.
  pub first-keep :
      (p q : A → Bool) (xs : List A) (x : A)
      → first p xs ≡ some x
      → q x ≡ true
      → first p (keep q xs) ≡ some x
  unfolding first keep
  first-keep p q [] x h k = cc
  first-keep p q (y ∷ xs) x h k = elim (Bool-cases (p y)) [
    | inl hit ↦ ground (arith, h, hit, k)
    | inr miss ↦ elim (Bool-cases (q y)) [
      | inl kept ↦ rw (kept, miss) (first-keep p q xs x (ground (arith, h, miss)) k)
      | inr gone ↦ rw gone (first-keep p q xs x (ground (arith, h, miss)) k)
    ]
  ]

  -- Removing what is not there changes nothing.
  pub keep-none : (q : A → Bool) (xs : List A) → any q xs ≡ false → keep (λ x. not (q x)) xs ≡ xs
  unfolding any keep
  keep-none q [] h = refl
  keep-none q (x ∷ xs) h = ground (arith, h, keep-none q xs)

module _ {ℓ κ} {A : Type ℓ} (P : A → Type κ) where
  pub All-keep : (q : A → Bool) (xs : List A) → All P xs → All P (keep q xs)
  unfolding keep
  All-keep q [] h = tt
  All-keep q (x ∷ xs) (p, h) = ground (arith, All-keep q xs h)

  pub first-All : (p : A → Bool) (xs : List A) (x : A) → All P xs → first p xs ≡ some x → P x
  unfolding first
  first-All p [] x a h = cc
  first-All p (y ∷ xs) x (q, a) h = elim (Bool-cases (p y)) [
    | inl hit ↦ let same : y ≡ x = ground (arith, h, hit) in subst P same q
    | inr miss ↦ first-All p xs x a (ground (arith, h, miss))
  ]
