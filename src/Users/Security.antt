-- ===== src/Users/Security.antt =====
-- services/users/app/security.py. The libraries for passwords and tokens are the parameter `Security`.
use vidcast.Base.{
  ℕ, ◌+◌, ◌*◌, ◌≤◌, ◌≡◌, Bool, true, ◌&&◌, Option, none, some, codes, if◌then◌else◌, leb, nat_eq,
  bytes_eq,
}
use vidcast.Users.Text.{Str, utf8_length}
use vidcast.Users.Db.{User}

-- passlib and jose, with the secret and the algorithm of the settings. The salt of a hash and the
-- time at which a token is read are arguments.
pub record Security : Type 0 where
  -- `pwd_context.hash`
  pub hash : ℕ → Str → Str
  -- `pwd_context.verify`
  pub verify : Str → Str → Bool
  -- `jwt.encode` of `exp` and `sub`
  pub encode : ℕ → Str → Str
  -- `jwt.decode`, and `payload.get("sub")`
  pub decode : ℕ → Str → Option (Option Str)
  -- The salt of `DUMMY_PASSWORD_HASH`.
  pub dummy_salt : ℕ

-- A password matches its own hash, and a token is read back until it expires.
pub record IsSecurity (s : Security) : Type 0 where
  pub verify-hash : (salt : ℕ) (p : Str) → s.verify p (s.hash salt p) ≡ true
  pub decode-encode :
      (now exp : ℕ) (sub : Str) → now ≤ exp → s.decode now (s.encode exp sub) ≡ some (some sub)

module _ (s : Security) where
  abbrev pub password_hash : Option User → Str
  password_hash none = s.hash s.dummy_salt (codes "dummy-password-for-constant-time-login")
  password_hash (some user) = user.hashed_password

  -- `password_valid`: bcrypt never sees an oversized password.
  unfoldable pub password_valid : Option User → Str → Bool
  unfolding utf8_length
  password_valid user password =
      let bytes_ok = leb (utf8_length password) 72 in
      let to_check = if bytes_ok then password else codes "oversized-password-rejected" in
      bytes_ok && s.verify to_check (password_hash user)

  -- `create_access_token`, of a number of minutes, at a time in seconds.
  unfoldable pub create_access_token : ℕ → ℕ → Str → Str
  create_access_token minutes wall subject = s.encode (wall + 60 * minutes) subject

  -- `decode_access_token`.
  unfoldable pub decode_access_token : ℕ → Str → Option Str
  decode_access_token wall token = elim (s.decode wall token) [ none ↦ none | some sub ↦ sub ]
