-- ===== src/Base/Equality.antt =====
-- Go's `==` and map keys: types whose equality is decided.
use Prim.Native.Nat.{ℕ}
use mathlib.Core.Path.{◌≡◌, refl}
use mathlib.Core.Logic.{ite, dite}
use mathlib.Core.Bool.{Bool, true, false, ◌||◌}
use mathlib.Core.List.{List, [], ◌∷◌}
use native.Mathlib.Decide.{ℕ_discrete}
use native.Mathlib.Omega.{arith}

pub record Eq {ℓ} (A : Type ℓ) : Type ℓ where
  pub dec : Discrete A

module _ {ℓ} {A : Type ℓ} ⦃e : Eq A⦄ where
  infix 50 ◌==◌
  abbrev pub ◌==◌ : A → A → Bool
  a == b = ite (e.dec a b) true false

  abbrev pub contains : List A → A → Bool
  contains [] a = false
  contains (x ∷ xs) a = a == x || contains xs a

  pub ==-refl : (a : A) → (a == a) ≡ true
  ==-refl a = ground arith

cons-path : (x y : ℕ) (xs ys : List ℕ) → x ≡ y → xs ≡ ys → (x ∷ xs) ≡ (y ∷ ys)
cons-path x y xs ys p q = cc

cons-ne_head : (x y : ℕ) (xs ys : List ℕ) → ¬ (x ≡ y) → ¬ ((x ∷ xs) ≡ (y ∷ ys))
cons-ne_head x y xs ys n = λ p. n (cc)

cons-ne_tail : (x y : ℕ) (xs ys : List ℕ) → ¬ (xs ≡ ys) → ¬ ((x ∷ xs) ≡ (y ∷ ys))
cons-ne_tail x y xs ys n = λ p. n (cc)

nil-ne-cons : (y : ℕ) (ys : List ℕ) → ¬ ([] ≡ (y ∷ ys))
nil-ne-cons y ys = λ p. cc

cons-ne-nil : (y : ℕ) (ys : List ℕ) → ¬ ((y ∷ ys) ≡ [])
cons-ne-nil y ys = λ p. cc

list_dec : Discrete (List ℕ)
list_dec [] [] = yes refl
list_dec [] (y ∷ ys) = no (nil-ne-cons y ys)
list_dec (x ∷ xs) [] = no (cons-ne-nil x xs)
list_dec (x ∷ xs) (y ∷ ys) =
    let rest = list_dec xs ys in
    dite (ℕ_discrete x y)
      (λ p. dite rest (λ q. yes (cons-path x y xs ys p q)) (λ n. no (cons-ne_tail x y xs ys n)))
      (λ n. no (cons-ne_head x y xs ys n))

instance unfoldable pub nat_eq : Eq ℕ
unfolding ℕ_discrete
nat_eq = record { dec = ℕ_discrete }

instance unfoldable pub bytes_eq : Eq (List ℕ)
unfolding list_dec ℕ_discrete cons-path cons-ne_head cons-ne_tail nil-ne-cons cons-ne-nil
bytes_eq = record { dec = list_dec }
