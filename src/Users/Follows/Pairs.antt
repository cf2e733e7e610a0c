-- ===== src/Users/Follows/Pairs.antt =====
-- routers/users.py: what an insert into `follows` does to the pairs.
use vidcast.Base.{
  [], List, ℕ, ◌≡◌, refl, true, not, ◌&&◌, ◌||◌, Bool-cases, Option-cases, ◌⊎◌, inl, inr, ◌∷◌, none,
  ok, err, arith, ◌==◌, nat_eq, bytes_eq,
}
use vidcast.Users.Table.{any, keep}
use vidcast.Users.Db.{
  Follow, Db, follows_pkey, follows_fkey, is_pair, follows_pair, find_id, insert_follow,
  delete_follow,
}

-- The pairs of the second database are those of the first and this one.
abbrev pub Adds : Db → Db → ℕ → ℕ → Type 0
Adds db c follower followed =
    (a b : ℕ) → follows_pair c a b ≡ (follower == a && followed == b) || follows_pair db a b

abbrev pub Removes : Db → Db → ℕ → ℕ → Type 0
Removes db c follower followed =
    (a b : ℕ) → follows_pair c a b ≡ follows_pair db a b && not (follower == a && followed == b)

pub insert_follow-cases :
    (db : Db) (follower followed now : ℕ)
    → (((c : Db) × (insert_follow db follower followed now ≡ ok c) × Adds db c follower followed)
        ⊎ ((insert_follow db follower followed now ≡ err follows_pkey)
            × (follows_pair db follower followed ≡ true)))
      ⊎ ((insert_follow db follower followed now ≡ err follows_fkey)
          × ((find_id db follower ≡ none) ⊎ (find_id db followed ≡ none)))
unfolding insert_follow any
insert_follow-cases db follower followed now =
    elim (Bool-cases (follows_pair db follower followed)) [
      | inl there ↦ inl (inr (ground (arith, there)))
      | inr fresh ↦ elim (Option-cases (find_id db follower)) [
        | inl gone ↦ inr (ground (arith, fresh, gone), inl gone)
        | inr (u, e) ↦ elim (Option-cases (find_id db followed)) [
          | inl gone ↦ inr (ground (arith, fresh, e, gone), inr gone)
          | inr (v, f) ↦ inl (
              inl (
                record db {
                  follows =
                      record { follower_id = follower; followed_id = followed; created_at = now }
                      ∷ db.follows;
                },
                ground (arith, fresh, e, f),
                λ a b. refl,
              ))
        ]
      ]
    ]

pub insert_follow-row :
    (db c : Db) (a b now : ℕ)
    → insert_follow db a b now ≡ ok c
    → c ≡ record db {
      follows = record { follower_id = a; followed_id = b; created_at = now } ∷ db.follows;
    }
unfolding insert_follow
insert_follow-row db c a b now e = ground (arith, e)

pub there_lem :
    (db : Db) (a b now : ℕ)
    → follows_pair
        (record db {
          follows = record { follower_id = a; followed_id = b; created_at = now } ∷ db.follows;
        })
        a
        b
      ≡ true
unfolding any
there_lem db a b now = ground arith

pairs_left :
    (fs : List Follow) (x y a b : ℕ)
    → any (is_pair a b) (keep (λ f. not (is_pair x y f)) fs)
      ≡ any (is_pair a b) fs && not (x == a && y == b)
unfolding any keep
pairs_left [] x y a b = refl
pairs_left (f ∷ fs) x y a b = ground (arith, pairs_left fs x y a b)

pub delete_follow-Removes :
    (db : Db) (follower followed : ℕ)
    → Removes db (delete_follow db follower followed) follower followed
unfolding delete_follow
delete_follow-Removes db follower followed a b = pairs_left db.follows follower followed a b
