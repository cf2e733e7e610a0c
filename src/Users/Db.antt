-- ===== src/Users/Db.antt =====
-- services/users/app/models.py: the tables and their constraints, and the statements that the
-- routers run. A statement and its commit are one step of the database. The database's `lower` of
-- the two functional indexes is the parameter `fold`. Both tables give a new row in front.
pub mod Invariant
pub mod History
use vidcast.Base.{
  ℕ, ◌+◌, Bool, true, false, not, ◌&&◌, ◌||◌, List, [], ◌∷◌, Option, none, some, Result, ok, err,
  Bytes, if◌then◌else◌, ◌==◌, nat_eq, bytes_eq,
}
use vidcast.Users.Text.{Str}
use vidcast.Users.Table.{first, any, keep}

-- `User`.
pub record User : Type 0 where
  pub id : ℕ
  pub username : Str
  pub email : Str
  pub hashed_password : Str
  pub created_at : ℕ

-- `Follow`.
pub record Follow : Type 0 where
  pub follower_id : ℕ
  pub followed_id : ℕ
  pub created_at : ℕ

-- `next_id` is the sequence of the primary key.
pub record Db : Type 0 where
  pub users : List User
  pub follows : List Follow
  pub next_id : ℕ

abbrev pub empty_db : Db
empty_db = record { users = []; follows = []; next_id = 1 }

-- The constraint that an insert violates.
pub data Violation : Type 0 where
  username_key email_key follows_pkey follows_fkey : Violation

abbrev pub find_username : Db → Str → Option User
find_username db name = first (λ u. u.username == name) db.users

abbrev pub find_id : Db → ℕ → Option User
find_id db id = first (λ u. u.id == id) db.users

abbrev pub is_pair : ℕ → ℕ → Follow → Bool
is_pair a b f = f.follower_id == a && f.followed_id == b

abbrev pub follows_pair : Db → ℕ → ℕ → Bool
follows_pair db a b = any (is_pair a b) db.follows

-- The two unique indexes of each of `username` and `email`.
module _ (fold : Str → Str) where
  abbrev pub same_username : User → User → Bool
  same_username u w = w.username == u.username || fold w.username == fold u.username

  abbrev pub same_email : User → User → Bool
  same_email u w = w.email == u.email || fold w.email == fold u.email

  -- `INSERT INTO users`.
  unfoldable pub insert_user : Db → Str → Str → Str → ℕ → Result Violation (Db × User)
  unfolding any
  insert_user db username email hashed_password created_at =
      let u : User = record {
        id = db.next_id;
        username = username;
        email = email;
        hashed_password = hashed_password;
        created_at = created_at;
      } in
      if any (same_username u) db.users
      then err username_key
      else if any (same_email u) db.users
      then err email_key
      else ok (record db { users = u ∷ db.users; next_id = db.next_id + 1 }, u)

abbrev pub is_found : Option User → Bool
is_found none = false
is_found (some _) = true

-- `INSERT INTO follows`: the primary key is checked before the foreign keys.
unfoldable pub insert_follow : Db → ℕ → ℕ → ℕ → Result Violation Db
unfolding first any
insert_follow db follower followed created_at =
    if follows_pair db follower followed
    then err follows_pkey
    else if not (is_found (find_id db follower) && is_found (find_id db followed))
    then err follows_fkey
    else ok (record db {
      follows =
          record { follower_id = follower; followed_id = followed; created_at = created_at }
          ∷ db.follows;
    })

-- `DELETE FROM follows WHERE follower_id = ... AND followed_id = ...`.
unfoldable pub delete_follow : Db → ℕ → ℕ → Db
unfolding keep
delete_follow db follower followed = record db {
  follows = keep (λ f. not (is_pair follower followed f)) db.follows;
}

-- A user is deleted by hand; `ON DELETE CASCADE` takes the follows along.
unfoldable pub delete_user : Db → ℕ → Db
unfolding keep
delete_user db id = record db {
  users = keep (λ u. not (u.id == id)) db.users;
  follows = keep (λ f. not (f.follower_id == id || f.followed_id == id)) db.follows;
}
