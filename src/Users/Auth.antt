-- ===== src/Users/Auth.antt =====
-- services/users/app/routers/auth.py, security.py and deps.py. A handler takes the state and returns
-- it with its answer. The libraries for passwords and tokens are the parameter `Security`, the text
-- of the driver's errors is `Driver`, `str.lower` is `lower`.
pub mod Failures
pub mod Registration
pub mod Session
pub mod Attempts
pub mod Guessing
pub mod RetryAfter
use vidcast.Users.Security.{
  Security, IsSecurity, password_hash, password_valid, create_access_token, decode_access_token,
}
use vidcast.Base.{
  ℕ, ◌+◌, ◌-◌, ◌*◌, ◌/◌, ◌≤◌, ◌≡◌, Bool, true, false, not, ◌&&◌, ◌||◌, List, [], ◌∷◌, Option, none,
  some, Result, ok, err, ◌>>=◌, Bytes, codes, if◌then◌else◌, ◌==◌, leb, nat_eq, bytes_eq,
}
use vidcast.Users.Text.{Str, utf8_length, occurs}
use vidcast.Users.ClientIp.{Source, get_client_ip}
use vidcast.Users.Schemas.{Raw, UserCreate, Field, validate}
use vidcast.Users.RateLimit.{RateLimiter, Limits, new_limiter, check, reset, reset_all}
use vidcast.Users.Db.{
  User, Db, Violation, username_key, email_key, follows_pkey, follows_fkey, find_username,
  insert_user,
}

-- `str(exc.orig)`.
abbrev pub Driver : Type 0
Driver = Violation → Str

-- What the handlers look for in those texts, and that a foreign key's text is not taken for a
-- duplicate.
pub record IsDriver (lower : Str → Str) (driver : Driver) : Type 0 where
  pub names_username : occurs (codes "username") (lower (driver username_key)) ≡ true
  pub names_email : occurs (codes "email") (lower (driver email_key)) ≡ true
  pub names_unique : occurs (codes "unique") (lower (driver follows_pkey)) ≡ true
  pub names_foreign : occurs (codes "foreign") (lower (driver follows_fkey)) ≡ true
  pub not_unique : occurs (codes "unique") (lower (driver follows_fkey)) ≡ false

-- What a request gets when it fails.
pub data Failure : Type 0 where
  -- 422, with the fields that are wrong
  unprocessable : List Field → Failure
  -- 429, with the header `Retry-After`
  too_many : ℕ → Failure
  -- `HTTPException` with its status and its detail
  http : ℕ → Str → Failure
  -- 500: the exception is raised again
  raised : Failure

-- `UserOut`.
pub record UserOut : Type 0 where
  pub username : Str
  pub created_at : ℕ
  pub email : Str

abbrev pub user_out : User → UserOut
user_out u = record { username = u.username; created_at = u.created_at; email = u.email }

-- What the process and the database keep.
pub record App : Type 0 where
  pub db : Db
  pub register_ip : RateLimiter
  pub login_ip : RateLimiter
  pub login_username : RateLimiter

-- The limiters of the module, and what `lifespan` does to them.
unfoldable pub new_app : Limits → Limits → Db → App
unfolding new_limiter reset_all
new_app register_limits login_limits db = record {
  db = db;
  register_ip = reset_all (new_limiter register_limits);
  login_ip = reset_all (new_limiter login_limits);
  login_username = reset_all (new_limiter login_limits);
}

-- `OAuth2PasswordRequestForm`.
pub record Form : Type 0 where
  pub username : Str
  pub password : Str

-- `math.ceil` of a time in ticks, of which there are `hz` in a second.
abbrev pub ceil : ℕ → ℕ → ℕ
ceil hz ticks = (ticks + (hz - 1)) / hz

-- `_enforce`.
unfoldable pub enforce : ℕ → RateLimiter → Str → ℕ → RateLimiter × Result Failure (Unit {0})
enforce hz l key now =
    let (m, r) = check l key now in
    elim r [ ok _ ↦ (m, ok tt) | err retry_after ↦ (m, err (too_many (ceil hz retry_after))) ]

abbrev pub already_registered : Failure
already_registered = http 409 (codes "username or email already registered")

abbrev pub incorrect : Failure
incorrect = http 401 (codes "incorrect username or password")

abbrev pub unauthorized : Failure
unauthorized = http 401 (codes "Could not validate credentials")

-- The `except IntegrityError` of `register`.
unfoldable pub register_failure : (Str → Str) → Driver → Violation → Failure
unfolding occurs
register_failure lower driver v =
    let text = lower (driver v) in
    if occurs (codes "username") text || occurs (codes "email") text
    then already_registered
    else raised

module _ (s : Security) where
  -- `login` after the two limits.
  unfoldable pub authenticate : ℕ → App → Str → Str → Str → ℕ → App × Result Failure Str
  unfolding password_valid create_access_token reset
  authenticate minutes app client_ip username password wall =
      let found = find_username app.db username in
      let valid = password_valid s found password in
      elim found [
        | none ↦ (app, err incorrect)
        | some user ↦
            if valid
            then (
              record app {
                login_ip = reset app.login_ip client_ip;
                login_username = reset app.login_username username;
              },
              ok (create_access_token s minutes wall user.username),
            )
            else (app, err incorrect)
      ]

  -- `get_current_user`.
  unfoldable pub get_current_user : Db → ℕ → Str → Result Failure User
  unfolding decode_access_token
  get_current_user db wall token = elim (decode_access_token s wall token) [
    | none ↦ err unauthorized
    | some username ↦ elim (find_username db username) [
      | none ↦ err unauthorized
      | some user ↦ ok user
    ]
  ]

  -- `read_current_user`.
  unfoldable pub read_current_user : Db → ℕ → Str → Result Failure UserOut
  unfolding get_current_user
  read_current_user db wall token = get_current_user db wall token >>= λ user. ok (user_out user)

module _ (s : Security) (lower : Str → Str) where
  -- `register`, on a body that is valid.
  unfoldable pub register :
      Driver
      → (Str → Str)
      → ℕ
      → App
      → Source
      → UserCreate
      → ℕ
      → ℕ
      → ℕ
      → App × Result Failure UserOut
  unfolding enforce insert_user register_failure
  register driver fold hz app source payload now salt created_at =
      let (l, allowed) = enforce hz app.register_ip (get_client_ip source) now in
      elim allowed [
        | err f ↦ (record app { register_ip = l }, err f)
        | ok _ ↦
            elim (insert_user fold app.db payload.username payload.email
              (s.hash salt payload.password) created_at) [
                | ok (db, user) ↦ (record app { register_ip = l; db = db }, ok (user_out user))
                | err v ↦ (record app { register_ip = l }, err (register_failure lower driver v))
              ]
      ]

  -- `POST /auth/register`: the body is validated first.
  unfoldable pub post_register :
      Driver
      → (Str → Str)
      → (Str → Option Str)
      → ℕ
      → App
      → Source
      → Raw
      → ℕ
      → ℕ
      → ℕ
      → App × Result Failure UserOut
  unfolding validate register
  post_register driver fold email hz app source raw now salt created_at =
      elim (validate lower email raw) [
        | err fields ↦ (app, err (unprocessable fields))
        | ok payload ↦ register driver fold hz app source payload now salt created_at
      ]

  -- `login`. The clock is read at either limiter and for the token.
  unfoldable pub login : ℕ → ℕ → App → Source → Form → ℕ → ℕ → ℕ → App × Result Failure Str
  unfolding enforce authenticate
  login hz minutes app source form now later wall =
      let client_ip = get_client_ip source in
      let username = lower form.username in
      let (l, ip_allowed) = enforce hz app.login_ip client_ip now in
      elim ip_allowed [
        | err f ↦ (record app { login_ip = l }, err f)
        | ok _ ↦
            let (m, name_allowed) = enforce hz app.login_username username later in
            elim name_allowed [
              | err f ↦ (record app { login_ip = l; login_username = m }, err f)
              | ok _ ↦
                  authenticate s minutes (record app { login_ip = l; login_username = m }) client_ip
                    username form.password wall
            ]
      ]
