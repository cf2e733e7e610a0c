-- ===== src/Users/Follows.antt =====
-- services/users/app/routers/users.py: profiles and follows.
pub mod Pairs
pub mod Toggle
pub mod Order
pub mod Slices
pub mod Pages
use vidcast.Base.{
  ℕ, zero, suc, ◌+◌, ◌-◌, ◌≤◌, ◌≡◌, Bool, true, false, not, ◌&&◌, ◌||◌, List, [], ◌∷◌, map, take,
  Option, none, some, Result, ok, err, ◌>>=◌, Bytes, codes, if◌then◌else◌, ◌==◌, ltb, leb, nat_eq,
  bytes_eq, ℤ, pos, negsuc,
}
use vidcast.Users.Text.{Str, occurs}
use vidcast.Users.Schemas.{limit_field, offset_field}
use vidcast.Users.Table.{first, keep}
use vidcast.Users.Db.{
  User, Follow, Db, Violation, find_username, find_id, insert_follow, delete_follow,
}
use vidcast.Users.Auth.{
  Driver, Failure, http, unprocessable, raised, UserOut, user_out, get_current_user,
}
use vidcast.Users.Security.{Security}

abbrev pub user_not_found : Failure
user_not_found = http 404 (codes "user not found")

abbrev pub not_yourself : Failure
not_yourself = http 400 (codes "cannot follow yourself")

-- `PublicUserOut`.
pub record PublicUserOut : Type 0 where
  pub username : Str
  pub created_at : ℕ

abbrev pub public_user_out : User → PublicUserOut
public_user_out u = record { username = u.username; created_at = u.created_at }

-- What `follow_user` makes of an `IntegrityError`.
unfoldable pub follow_failure : (Str → Str) → Driver → Violation → Result Failure (Unit {0})
unfolding occurs
follow_failure lower driver v =
    let text = lower (driver v) in
    if occurs (codes "unique") text
    then ok tt
    else if occurs (codes "foreign") text
    then err user_not_found
    else err raised

module _ (lower : Str → Str) where
  -- `_get_user_or_404`.
  unfoldable pub get_user_or_404 : Db → Str → Result Failure User
  get_user_or_404 db username = elim (find_username db (lower username)) [
    | none ↦ err user_not_found
    | some user ↦ ok user
  ]

  -- `read_user`.
  unfoldable pub read_user : Db → Str → Result Failure PublicUserOut
  unfolding get_user_or_404
  read_user db username = get_user_or_404 db username >>= λ user. ok (public_user_out user)

  -- The insert of `follow_user`, on the database as it is by then.
  unfoldable pub insert_or_ignore : Driver → Db → ℕ → ℕ → ℕ → Db × Result Failure (Unit {0})
  unfolding insert_follow follow_failure
  insert_or_ignore driver db follower followed created_at =
      elim (insert_follow db follower followed created_at) [
        | ok c ↦ (c, ok tt)
        | err v ↦ (db, follow_failure lower driver v)
      ]

  -- `follow_user` by the current user: the target is looked up in the first database, and the row is
  -- inserted in the second one, which other requests may have changed.
  unfoldable pub follow_user : Driver → Db → Db → Str → User → ℕ → Db × Result Failure (Unit {0})
  unfolding get_user_or_404 insert_or_ignore
  follow_user driver seen db username current created_at = elim (get_user_or_404 seen username) [
    | err f ↦ (db, err f)
    | ok target ↦
        if target.id == current.id
        then (db, err not_yourself)
        else insert_or_ignore driver db current.id target.id created_at
  ]

  -- `unfollow_user`.
  unfoldable pub unfollow_user : Db → Db → Str → User → Db × Result Failure (Unit {0})
  unfolding get_user_or_404 delete_follow
  unfollow_user seen db username current = elim (get_user_or_404 seen username) [
    | err f ↦ (db, err f)
    | ok target ↦ (delete_follow db current.id target.id, ok tt)
  ]

-- `ORDER BY created_at, id`.
abbrev pub precedes : (Follow → ℕ) → Follow → Follow → Bool
precedes id f g =
    ltb f.created_at g.created_at || (f.created_at == g.created_at && leb (id f) (id g))

unfoldable pub put_in_order : (Follow → ℕ) → Follow → List Follow → List Follow
put_in_order id f [] = f ∷ []
put_in_order id f (g ∷ fs) =
    let rest = put_in_order id f fs in if precedes id f g then f ∷ g ∷ fs else g ∷ rest

unfoldable pub order_by : (Follow → ℕ) → List Follow → List Follow
unfolding put_in_order
order_by id [] = []
order_by id (f ∷ fs) = put_in_order id f (order_by id fs)

-- `OFFSET`.
unfoldable pub skip {ℓ} : {A : Type ℓ} → ℕ → List A → List A
skip zero xs = xs
skip (suc n) [] = []
skip (suc n) (x ∷ xs) = skip n xs

-- The rows of one side, in their order, with the user of the other side. The join is an outer
-- one: where there is no such user it has none.
unfoldable pub followers_of : Db → ℕ → List (Option User)
unfolding keep order_by
followers_of db id =
    map (λ f. find_id db f.follower_id)
      (order_by (λ f. f.follower_id) (keep (λ f. f.followed_id == id) db.follows))

unfoldable pub followed_by : Db → ℕ → List (Option User)
unfolding keep order_by
followed_by db id =
    map (λ f. find_id db f.followed_id)
      (order_by (λ f. f.followed_id) (keep (λ f. f.follower_id == id) db.follows))

-- The bounds of the two query parameters.
unfoldable pub check_page : ℤ → ℤ → Result Failure (ℕ × ℕ)
check_page (pos limit) (pos offset) =
    if leb 1 limit && leb limit 200
    then ok (limit, offset)
    else err (unprocessable (limit_field ∷ []))
check_page (pos limit) (negsuc _) =
    if leb 1 limit && leb limit 200
    then err (unprocessable (offset_field ∷ []))
    else err (unprocessable (limit_field ∷ offset_field ∷ []))
check_page (negsuc _) (pos _) = err (unprocessable (limit_field ∷ []))
check_page (negsuc _) (negsuc _) = err (unprocessable (limit_field ∷ offset_field ∷ []))

-- The answer as `list[PublicUserOut]`, which a row without its user cannot be.
unfoldable pub public_users : List (Option User) → Result Failure (List PublicUserOut)
public_users [] = ok []
public_users (none ∷ _) = err raised
public_users (some u ∷ us) = public_users us >>= λ rest. ok (public_user_out u ∷ rest)

unfoldable pub page_of : List (Option User) → ℕ → ℕ → Result Failure (List PublicUserOut)
unfolding skip public_users
page_of rows limit offset = public_users (take limit (skip offset rows))

module _ (lower : Str → Str) where
  -- `list_followers`.
  unfoldable pub list_followers : Db → Str → ℤ → ℤ → Result Failure (List PublicUserOut)
  unfolding check_page get_user_or_404 followers_of page_of
  list_followers db username limit offset = do
    (n, from) ← check_page limit offset
    target ← get_user_or_404 lower db username
    page_of (followers_of db target.id) n from

  -- `list_following`.
  unfoldable pub list_following : Db → Str → ℤ → ℤ → Result Failure (List PublicUserOut)
  unfolding check_page get_user_or_404 followed_by page_of
  list_following db username limit offset = do
    (n, from) ← check_page limit offset
    target ← get_user_or_404 lower db username
    page_of (followed_by db target.id) n from
