-- ===== src/Users/Settings.antt =====
-- services/users/app/config.py: the settings and their three validators, which run in their order
-- until one raises. `URL.render_as_string` is the parameter `render`.
pub mod Production
use vidcast.Base.{
  ℕ, ◌+◌, ◌≤◌, ◌≡◌, ◌≢◌, refl, sym, ap, ◌∙◌, Bool, true, false, not, ◌&&◌, ◌||◌, Bool-cases,
  Option-cases, Result-cases, inl, inr, List, [], ◌∷◌, Option, none, some, arith, Bytes, Result, ok,
  err, ◌>>=◌, codes, length, if◌then◌else◌, ◌==◌, leb, ltb, nat_eq, bytes_eq,
}
use vidcast.Users.Text.{Str}

pub record Settings : Type 0 where
  pub database_url : Str
  pub db_host : Option Str
  pub db_port : ℕ
  pub db_name : Option Str
  pub db_user : Option Str
  pub db_password : Option Str
  pub environment : Str
  pub jwt_secret : Str

abbrev pub insecure_default_jwt_secret : Str
insecure_default_jwt_secret = codes "dev-secret-do-not-use-in-production"

abbrev pub development : Str
development = codes "development"

pub data Invalid : Type 0 where
  insecure_secret short_secret fields_apart no_host : Invalid

abbrev pub is_set : Option Str → Bool
is_set none = false
is_set (some _) = true

-- `not self.db_host` is false.
abbrev pub is_truthy : Option Str → Bool
is_truthy (some (_ ∷ _)) = true
is_truthy _ = false

unfoldable pub reject_insecure_secret_outside_dev : Settings → Result Invalid Settings
reject_insecure_secret_outside_dev s =
    if s.environment == development
    then ok s
    else if s.jwt_secret == [] || s.jwt_secret == insecure_default_jwt_secret
    then err insecure_secret
    else if ltb (length s.jwt_secret) 32
    then err short_secret
    else ok s

abbrev pub any_set : Settings → Bool
any_set s = is_set s.db_host || is_set s.db_user || is_set s.db_password || is_set s.db_name

abbrev pub all_set : Settings → Bool
all_set s = is_set s.db_host && is_set s.db_user && is_set s.db_password && is_set s.db_name

unfoldable pub require_discrete_db_fields_together : Settings → Result Invalid Settings
require_discrete_db_fields_together s =
    if any_set s && not (all_set s) then err fields_apart else ok s

unfoldable pub require_db_host_outside_dev : Settings → Result Invalid Settings
require_db_host_outside_dev s =
    if not (s.environment == development) && not (is_truthy s.db_host) then err no_host else ok s

-- `Settings()` on the values of the environment.
unfoldable pub load : Settings → Result Invalid Settings
unfolding reject_insecure_secret_outside_dev require_discrete_db_fields_together
    require_db_host_outside_dev
load s = do
  a ← reject_insecure_secret_outside_dev s
  b ← require_discrete_db_fields_together a
  require_db_host_outside_dev b

-- The arguments of `URL.create`; the driver is always psycopg's.
pub record DbUrl : Type 0 where
  pub username : Option Str
  pub password : Option Str
  pub host : Str
  pub port : ℕ
  pub database : Option Str

-- `resolved_database_url`.
unfoldable pub resolved_database_url : (DbUrl → Str) → Settings → Str
resolved_database_url render s = elim s.db_host [
  | none ↦ s.database_url
  | some host ↦ render (record {
    username = s.db_user;
    password = s.db_password;
    host = host;
    port = s.db_port;
    database = s.db_name;
  })
]
