-- ===== src/Users/Follows/Toggle.antt =====
-- routers/users.py: follow and unfollow.
use vidcast.Users.Follows.Pairs.{
  Removes, delete_follow-Removes, Adds, insert_follow-cases, insert_follow-row, there_lem,
}
use vidcast.Base.{
  ℕ, ◌≡◌, refl, true, false, ◌&&◌, Bool-cases, Option-cases, ◌⊎◌, inl, inr, ◌∷◌, none, some, ok,
  err, arith, ◌==◌, nat_eq, bytes_eq,
}
use vidcast.Users.Text.{Str}
use vidcast.Users.Table.{keep, keep-none}
use vidcast.Users.Db.{
  User, Db, is_pair, follows_pair, find_username, find_id, insert_follow, delete_follow,
}
use vidcast.Users.Auth.{Driver, IsDriver}
use vidcast.Users.Follows.{
  user_not_found, not_yourself, follow_failure, get_user_or_404, insert_or_ignore, follow_user,
  unfollow_user,
}

module _ (lower : Str → Str) (driver : Driver) where
  -- After a follow that succeeds the pair is there, and no other pair has changed; it is of two
  -- users.
  abbrev pub Followed : Db → Db → Db → Str → User → Type 0
  Followed seen db c username current =
      (target : User) × (get_user_or_404 lower seen username ≡ ok target)
      × ((target.id == current.id) ≡ false)
      × Adds db c current.id target.id

  there-Adds :
      (db : Db) (follower followed : ℕ)
      → follows_pair db follower followed ≡ true
      → Adds db db follower followed
  there-Adds db follower followed h a b = elim (Bool-cases (follower == a && followed == b)) [
    | inl same ↦
        let at_a : follower ≡ a = ground (arith, same) in
        let at_b : followed ≡ b = ground (arith, same) in rw (same, ← at_a, ← at_b) h
    | inr other ↦ rw other refl
  ]

  insert_or_ignore-cases :
      (db : Db) (follower followed now : ℕ)
      → IsDriver lower driver
      → let r = insert_or_ignore lower driver db follower followed now in
        ((c : Db) × (r ≡ (c, ok tt)) × Adds db c follower followed)
        ⊎ ((r ≡ (db, err user_not_found))
            × ((find_id db follower ≡ none) ⊎ (find_id db followed ≡ none)))
  unfolding insert_or_ignore follow_failure
  insert_or_ignore-cases db follower followed now d =
      elim (insert_follow-cases db follower followed now) [
        | inl (inl (c, e, adds)) ↦ inl (c, ground (arith, e), adds)
        | inl (inr (e, there)) ↦
            inl (db, ground (arith, e, d.names_unique), there-Adds db follower followed there)
        | inr (e, missing) ↦ inr (ground (arith, e, d.names_foreign, d.not_unique), missing)
      ]

  -- A follow, on every branch: it succeeds, and then the pair is there and no other pair has
  -- changed; or it fails and changes nothing, with 400 for oneself, and with 404 for a name that
  -- nobody has, or for one of the two users who is deleted between the two transactions. The
  -- driver's texts name what was violated.
  pub follow_user-cases :
      (seen db : Db) (username : Str) (current : User) (now : ℕ)
      → IsDriver lower driver
      → let r = follow_user lower driver seen db username current now in
        ((c : Db) × (r ≡ (c, ok tt)) × Followed seen db c username current)
        ⊎ ((r ≡ (db, err not_yourself))
            × ((target : User) × (get_user_or_404 lower seen username ≡ ok target)
                × ((target.id == current.id) ≡ true)))
        ⊎ ((r ≡ (db, err user_not_found))
            × ((find_username seen (lower username) ≡ none)
                ⊎ (find_id db current.id ≡ none)
                ⊎ ((target : User) × (get_user_or_404 lower seen username ≡ ok target)
                    × (find_id db target.id ≡ none))))
  unfolding follow_user get_user_or_404
  follow_user-cases seen db username current now d =
      elim (Option-cases (find_username seen (lower username))) [
        | inl unknown ↦ inr (inr (ground (arith, unknown), inl unknown))
        | inr (target, known) ↦ elim (Bool-cases (target.id == current.id)) [
          | inl self ↦
              inr (inl (ground (arith, known, self), (target, ground (arith, known), self)))
          | inr other ↦ elim (insert_or_ignore-cases db current.id target.id now d) [
            | inl (c, e, adds) ↦
                inl
                  (c, ground (arith, known, other, e), (target, ground (arith, known), other, adds))
            | inr (e, inl gone) ↦ inr (inr (ground (arith, known, other, e), inr (inl gone)))
            | inr (e, inr gone) ↦ inr (
                inr (
                  ground (arith, known, other, e),
                  inr (inr (target, ground (arith, known), gone)),
                ))
          ]
        ]
      ]

  -- What a follow that succeeds has done.
  follow_user-ok :
      (seen db c : Db) (username : Str) (current : User) (now : ℕ)
      → IsDriver lower driver
      → follow_user lower driver seen db username current now ≡ (c, ok tt)
      → (target : User) × (find_username seen (lower username) ≡ some target)
        × ((target.id == current.id) ≡ false)
        × (((c ≡ db) × (follows_pair db current.id target.id ≡ true))
            ⊎ (insert_follow db current.id target.id now ≡ ok c))
  unfolding follow_user get_user_or_404 insert_or_ignore follow_failure
  follow_user-ok seen db c username current now d e =
      elim (Option-cases (find_username seen (lower username))) [
        | inl unknown ↦ absurd (ground (arith, unknown, e))
        | inr (target, known) ↦ elim (Bool-cases (target.id == current.id)) [
          | inl self ↦ absurd (ground (arith, known, self, e))
          | inr other ↦ elim (insert_follow-cases db current.id target.id now) [
            | inl (inl (b, x, adds)) ↦
                (target, known, other, inr (ground (arith, known, other, x, e)))
            | inl (inr (x, there)) ↦
                (target, known, other, inl (ground (arith, known, other, x, e), there))
            | inr (x, missing) ↦
                absurd (ground (arith, known, other, x, d.names_foreign, d.not_unique, e))
          ]
        ]
      ]

  again_lem :
      (c : Db) (username : Str) (current target : User) (now : ℕ)
      → IsDriver lower driver
      → find_username c (lower username) ≡ some target
      → (target.id == current.id) ≡ false
      → follows_pair c current.id target.id ≡ true
      → follow_user lower driver c c username current now ≡ (c, ok tt)
  unfolding follow_user get_user_or_404 insert_or_ignore follow_failure insert_follow
  again_lem c username current target now d known other there =
      ground (arith, known, other, there, d.names_unique)

  -- Following again changes nothing and succeeds.
  pub follow_user-follow_user :
      (db c : Db) (username : Str) (current : User) (now later : ℕ)
      → IsDriver lower driver
      → follow_user lower driver db db username current now ≡ (c, ok tt)
      → follow_user lower driver c c username current later ≡ (c, ok tt)
  follow_user-follow_user db c username current now later d e =
      let (target, known, other, what) = follow_user-ok db db c username current now d e in
      elim what [
        | inl (same, there) ↦
            again_lem c username current target later d (rw same known) other (rw same there)
        | inr added ↦
            let row = insert_follow-row db c current.id target.id now added in
            again_lem c username current target later d (rw row known) other
              (rw row (there_lem db current.id target.id now))
      ]

  back_lem :
      (db : Db) (username : Str) (current target : User) (now : ℕ)
      → find_username db (lower username) ≡ some target
      → follows_pair db current.id target.id ≡ false
      → let c : Db = record db {
        follows =
            record { follower_id = current.id; followed_id = target.id; created_at = now }
            ∷ db.follows;
      } in
        unfollow_user lower c c username current ≡ (db, ok tt)
  unfolding unfollow_user get_user_or_404 delete_follow keep
  back_lem db username current target now known fresh =
      ground (arith, known, keep-none (is_pair current.id target.id) db.follows fresh)

  -- An unfollow right after a follow that succeeded, of a user who was not followed before, takes
  -- it back: the database is what it was. The driver's texts name what was violated.
  pub unfollow_user-follow_user :
      (db c : Db) (username : Str) (current target : User) (now : ℕ)
      → IsDriver lower driver
      → follow_user lower driver db db username current now ≡ (c, ok tt)
      → find_username db (lower username) ≡ some target
      → follows_pair db current.id target.id ≡ false
      → unfollow_user lower c c username current ≡ (db, ok tt)
  unfollow_user-follow_user db c username current target now d e found fresh =
      let (t, known, other, what) = follow_user-ok db db c username current now d e in
      let same : t ≡ target = cc in
      elim what [
        | inl (_, there) ↦ absurd (ground (arith, there, fresh, same))
        | inr added ↦
            let row = insert_follow-row db c current.id t.id now added in
            rw row (back_lem db username current t now known (rw same fresh))
      ]

-- An unfollow, on every branch: 404 for a name that nobody has, and nothing changes; else it
-- succeeds, the pair is gone, whether or not it was there, and no other pair has changed.
pub unfollow_user-cases :
    (lower : Str → Str) (seen db : Db) (username : Str) (current : User)
    → let r = unfollow_user lower seen db username current in
      ((r ≡ (db, err user_not_found)) × (find_username seen (lower username) ≡ none))
      ⊎ ((target : User) × (find_username seen (lower username) ≡ some target)
          × ((c : Db) × (r ≡ (c, ok tt)) × Removes db c current.id target.id))
unfolding unfollow_user get_user_or_404
unfollow_user-cases lower seen db username current =
    elim (Option-cases (find_username seen (lower username))) [
      | inl unknown ↦ inl (ground (arith, unknown), unknown)
      | inr (target, known) ↦ inr (
        target,
        known,
        (
          delete_follow db current.id target.id,
          ground (arith, known),
          delete_follow-Removes db current.id target.id,
        ),
      )
    ]
