-- ===== src/Users/Follows/Order.antt =====
-- routers/users.py: the order of the lists.
use mathlib.Core.List.{Perm}
use mathlib.Core.List.Perm
use vidcast.Base.{
  ℕ, ◌≡◌, true, false, Bool-cases, inl, inr, List, [], ◌∷◌, arith, All, nat_eq, bytes_eq,
}
use vidcast.Users.Db.{Follow}
use vidcast.Users.Follows.{precedes, put_in_order, order_by}

module _ (id : Follow → ℕ) where
  -- Oldest first, and by the id where two are as old.
  abbrev pub IsSorted : List Follow → Type 0
  IsSorted [] = Unit
  IsSorted (f ∷ fs) = All (λ g. precedes id f g ≡ true) fs × IsSorted fs

  precedes_trans :
      (f g h : Follow) → precedes id f g ≡ true → precedes id g h ≡ true → precedes id f h ≡ true
  precedes_trans f g h p q = ground (arith, p, q)

  precedes_total : (f g : Follow) → precedes id f g ≡ false → precedes id g f ≡ true
  precedes_total f g h = ground (arith, h)

  All-precedes :
      (f g : Follow) (fs : List Follow)
      → precedes id f g ≡ true
      → All (λ h. precedes id g h ≡ true) fs
      → All (λ h. precedes id f h ≡ true) fs
  All-precedes f g [] p a = tt
  All-precedes f g (h ∷ fs) p (q, a) = (precedes_trans f g h p q, All-precedes f g fs p a)

  put_in_order-All :
      (P : Follow → Type 0) (f : Follow) (fs : List Follow)
      → P f
      → All P fs
      → All P (put_in_order id f fs)
  unfolding put_in_order
  put_in_order-All P f [] p a = (p, tt)
  put_in_order-All P f (g ∷ fs) p (q, a) = ground (arith, put_in_order-All P f fs p a, p, q, a)

  pub order_by-All : (P : Follow → Type 0) (fs : List Follow) → All P fs → All P (order_by id fs)
  unfolding order_by
  order_by-All P [] a = tt
  order_by-All P (f ∷ fs) (p, a) = put_in_order-All P f (order_by id fs) p (order_by-All P fs a)

  put_in_order-IsSorted :
      (f : Follow) (fs : List Follow) → IsSorted fs → IsSorted (put_in_order id f fs)
  unfolding put_in_order
  put_in_order-IsSorted f [] s = (tt, tt)
  put_in_order-IsSorted f (g ∷ fs) (a, s) = elim (Bool-cases (precedes id f g)) [
    | inl before ↦ rw before (((before, All-precedes f g fs before a), (a, s)))
    | inr after ↦ rw after (
        (
          put_in_order-All (λ h. precedes id g h ≡ true) f fs (precedes_total f g after) a,
          put_in_order-IsSorted f fs s,
        ))
  ]

  pub order_by-IsSorted : (fs : List Follow) → IsSorted (order_by id fs)
  unfolding order_by
  order_by-IsSorted [] = tt
  order_by-IsSorted (f ∷ fs) = put_in_order-IsSorted f (order_by id fs) (order_by-IsSorted fs)

  put_in_order-Perm : (f : Follow) (fs : List Follow) → Perm (put_in_order id f fs) (f ∷ fs)
  unfolding put_in_order
  put_in_order-Perm f [] = Perm.refl (f ∷ [])
  put_in_order-Perm f (g ∷ fs) = elim (Bool-cases (precedes id f g)) [
    | inl before ↦ rw before (Perm.refl (f ∷ g ∷ fs))
    | inr after ↦ rw after (Perm.trans (Perm.cons g (put_in_order-Perm f fs)) (Perm.swap f g fs))
  ]

  pub order_by-Perm : (fs : List Follow) → Perm (order_by id fs) fs
  unfolding order_by
  order_by-Perm [] = Perm.refl []
  order_by-Perm (f ∷ fs) =
      Perm.trans (put_in_order-Perm f (order_by id fs)) (Perm.cons f (order_by-Perm fs))
