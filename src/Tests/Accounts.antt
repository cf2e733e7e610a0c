-- ===== src/Tests/Accounts.antt =====
-- A user who registers, logs in and is attacked. Passwords are hashed by putting the salt in front,
-- and a token is the user's name behind the time at which it expires.
use vidcast.Base.{
  ok, List, ◌⊎◌, err, ℕ, ◌≡◌, refl, false, map, [], ◌∷◌, Option, none, some, Bool, codes, arith,
  if◌then◌else◌, ◌==◌, ==-refl, leb, nat_eq, bytes_eq,
}
use vidcast.Users.Text.{Str, lower_ascii, occurs}
use vidcast.Users.ClientIp.{Source}
use vidcast.Users.Schemas.{Field, Raw, UserCreate, LowersAscii, validate}
use vidcast.Users.Schemas.Accepted.{
  validate-cases, username_ok, password_ok, IsAccepted, validate-IsAccepted,
}
use vidcast.Users.RateLimit.{Limits}
use vidcast.Users.Security.{Security, IsSecurity}
use vidcast.Users.Db.{username_key, email_key, follows_pkey, follows_fkey, empty_db}
use vidcast.Users.Auth.{Driver, IsDriver, App, Form, new_app}
use vidcast.Users.Service.{World, Moment, registers, logs_in, serve_all}
use vidcast.Users.Service.Valid.{Valid}
use vidcast.Users.Service.Invariant.{serve_all-Valid}

abbrev pub lower : Str → Str
lower s = map lower_ascii s

pub lower-LowersAscii : LowersAscii lower
lower-LowersAscii s a = refl

abbrev verify : Str → Str → Bool
verify p [] = false
verify p (salt ∷ h) = p == h

abbrev decode : ℕ → Str → Option (Option Str)
decode now [] = none
decode now (exp ∷ sub) = if leb now exp then some (some sub) else none

abbrev pub security : Security
security = record {
  hash = λ salt p. salt ∷ p;
  verify = verify;
  encode = λ exp sub. exp ∷ sub;
  decode = decode;
  dummy_salt = 0;
}

pub security-IsSecurity : IsSecurity security
security-IsSecurity = record {
  verify-hash = λ salt p. ==-refl p;
  decode-encode = λ now exp sub h. ground (arith, h);
}

abbrev pub driver : Driver
driver username_key = codes "UNIQUE constraint failed: users.username"
driver email_key = codes "UNIQUE constraint failed: users.email"
driver follows_pkey = codes "UNIQUE constraint failed: follows.follower_id, follows.followed_id"
driver follows_fkey = codes "FOREIGN KEY constraint failed"

pub driver-IsDriver : IsDriver lower driver
unfolding occurs nat_eq bytes_eq
driver-IsDriver = record {
  names_username = refl;
  names_email = refl;
  names_unique = refl;
  names_foreign = refl;
  not_unique = refl;
}

abbrev pub world : World
world = record {
  security = security;
  lower = lower;
  driver = driver;
  fold = lower;
  email = some;
  hz = 1;
  minutes = 60;
}

-- 5 attempts in 60 seconds, then 300 seconds of lockout.
abbrev pub limits : Limits
limits = record {
  max_attempts = 5;
  window = 60;
  lockout = 300;
  eviction_sample_size = 100;
  can_sample = omega arith;
}

abbrev pub app : App
app = new_app limits limits empty_db

abbrev pub home : Source
home = record { real_ip = some (codes "192.0.2.1"); forwarded_for = none; client = none }

abbrev pub raw : Raw
raw = record {
  username = codes "Ann";
  email = codes "ann@example.com";
  password = codes "password1";
}

abbrev pub ann : UserCreate
ann = record {
  username = codes "ann";
  email = codes "ann@example.com";
  password = codes "password1";
}

-- She capitalises her name as she likes.
abbrev pub form : Form
form = record { username = codes "ANN"; password = codes "password1" }

abbrev pub moment : Moment
moment = record { now = 10; later = 10; wall = 1000; salt = 7 }

pub ann-IsAccepted : IsAccepted ann
unfolding validate nat_eq bytes_eq
ann-IsAccepted = (validate-IsAccepted lower some raw ann lower-LowersAscii refl).0

validate-cases_example :
    ((u : UserCreate) × (validate lower some raw ≡ ok u)
      × IsAccepted u
      × (u.username ≡ map lower_ascii raw.username)
      × (u.password ≡ raw.password))
    ⊎ ((fields : List Field) × (validate lower some raw ≡ err fields)
        × ((username_ok raw.username ≡ false)
            ⊎ (some raw.email ≡ none)
            ⊎ (password_ok raw.password ≡ false)))
validate-cases_example = validate-cases lower some raw lower-LowersAscii

serve_all-Valid_example :
    Valid lower
      (serve_all world app ((moment, registers home raw) ∷ (moment, logs_in home form) ∷ [])).db
serve_all-Valid_example =
    serve_all-Valid world limits limits
      ((moment, registers home raw) ∷ (moment, logs_in home form) ∷ []) lower-LowersAscii
