-- ===== src/Users/Service.antt =====
-- services/users/app/main.py with its routers: the routes, each request served by itself. The
-- databases that a handler reads and writes are one here; what other requests do in between is in
-- the handlers' own theorems.
pub mod Valid
pub mod Invariant
pub mod Profiles
use vidcast.Base.{
  ℕ, ◌≡◌, List, [], ◌∷◌, Option, none, some, Result, ok, err, Bytes, codes, if◌then◌else◌, ◌==◌,
  bytes_eq, ℤ, Bool,
}
use vidcast.Users.Text.{Str}
use vidcast.Users.ClientIp.{Source}
use vidcast.Users.Schemas.{Raw}
use vidcast.Users.RateLimit.{Limits}
use vidcast.Users.Db.{User, Db}
use vidcast.Users.Migrations.{Connection, Faults, UpgradeError, upgrade_to_head}
use vidcast.Users.Auth.{
  Driver, Failure, http, UserOut, App, Form, new_app, post_register, login, get_current_user,
  read_current_user,
}
use vidcast.Users.Security.{Security}
use vidcast.Users.Follows.{
  PublicUserOut, read_user, follow_user, unfollow_user, list_followers, list_following,
}

-- `token` is that of the header `Authorization`.
pub data Request : Type 0 where
  registers : Source → Raw → Request
  logs_in : Source → Form → Request
  gets_user : (segment : Str) → (token : Option Str) → Request
  follows unfollows : (username : Str) → (token : Option Str) → Request
  lists_followers lists_following : (username : Str) → (limit offset : ℤ) → Request

pub data Answer : Type 0 where
  created shows_user : UserOut → Answer
  grants : Str → Answer
  shows_profile : PublicUserOut → Answer
  no_content : Answer
  lists : List PublicUserOut → Answer
  fails : Failure → Answer

-- What a request reads besides the state: the clock of the limiters, twice, the time of day in
-- seconds, and the salt of a new password.
pub record Moment : Type 0 where
  pub now : ℕ
  pub later : ℕ
  pub wall : ℕ
  pub salt : ℕ

abbrev pub answer_of {ℓ} : {A : Type ℓ} → (A → Answer) → Result Failure A → Answer
answer_of f (ok a) = f a
answer_of f (err e) = fails e

abbrev pub not_authenticated : Failure
not_authenticated = http 401 (codes "Not authenticated")

-- What is outside of the service.
pub record World : Type 0 where
  pub security : Security
  pub lower : Str → Str
  pub driver : Driver
  -- the database's `lower`
  pub fold : Str → Str
  -- `EmailStr`
  pub email : Str → Option Str
  -- ticks of the limiters in a second
  pub hz : ℕ
  -- `jwt_expire_minutes`
  pub minutes : ℕ

module _ (w : World) where
  -- `Depends(get_current_user)`.
  unfoldable pub current_user : Db → ℕ → Option Str → Result Failure User
  unfolding get_current_user
  current_user db wall none = err not_authenticated
  current_user db wall (some token) = get_current_user w.security db wall token

  -- `GET /users/{...}`: the route `/me` is the first.
  unfoldable pub get_user : Db → ℕ → Str → Option Str → Answer
  unfolding read_current_user read_user
  get_user db wall segment token =
      if segment == codes "me"
      then elim token [
        | none ↦ fails not_authenticated
        | some t ↦ answer_of shows_user (read_current_user w.security db wall t)
      ]
      else answer_of shows_profile (read_user w.lower db segment)

  unfoldable pub serve : App → Moment → Request → App × Answer
  unfolding current_user get_user post_register login follow_user unfollow_user list_followers
      list_following
  serve app m (registers source raw) =
      let (c, r) =
        post_register w.security w.lower w.driver w.fold w.email w.hz app source raw m.now m.salt
          m.wall in
      (c, answer_of created r)
  serve app m (logs_in source form) =
      let (c, r) = login w.security w.lower w.hz w.minutes app source form m.now m.later m.wall in
      (c, answer_of grants r)
  serve app m (gets_user segment token) = (app, get_user app.db m.wall segment token)
  serve app m (follows username token) = elim (current_user app.db m.wall token) [
    | err f ↦ (app, fails f)
    | ok user ↦
        let (db, r) = follow_user w.lower w.driver app.db app.db username user m.wall in
        (record app { db = db }, answer_of (λ _. no_content) r)
  ]
  serve app m (unfollows username token) = elim (current_user app.db m.wall token) [
    | err f ↦ (app, fails f)
    | ok user ↦
        let (db, r) = unfollow_user w.lower app.db app.db username user in
        (record app { db = db }, answer_of (λ _. no_content) r)
  ]
  serve app m (lists_followers username limit offset) =
      (app, answer_of lists (list_followers w.lower app.db username limit offset))
  serve app m (lists_following username limit offset) =
      (app, answer_of lists (list_following w.lower app.db username limit offset))

  unfoldable pub serve_all : App → List (Moment × Request) → App
  unfolding serve
  serve_all app [] = app
  serve_all app ((m, r) ∷ rs) = serve_all (serve app m r).0 rs

-- `lifespan`: the service starts when the migrations have been made.
unfoldable pub lifespan :
    Bool → (ℕ → Bool) → (ℕ → ℕ) → ℕ → Faults → Limits → Limits → Db → Result UpgradeError App
unfolding upgrade_to_head new_app
lifespan is_postgres polls clock start faults register_limits login_limits db =
    elim (upgrade_to_head is_postgres polls clock start faults).1 [
      | err e ↦ err e
      | ok _ ↦ ok (new_app register_limits login_limits db)
    ]
