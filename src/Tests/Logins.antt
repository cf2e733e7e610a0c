-- ===== src/Tests/Logins.antt =====
-- Logins: the right password, wrong ones, and too many.
use vidcast.Base.{
  Result, ℕ, ◌-◌, ◌+◌, ◌*◌, ◌<◌, ◌≤◌, ◌≡◌, true, false, refl, ◌⊎◌, List, [], ◌∷◌, some, none, ok,
  err, codes, arith, nat_eq, bytes_eq,
}
use vidcast.Base.Dict.{lookup, insert, delete}
use vidcast.Users.Text.{Str}
use vidcast.Users.Table.{first}
use vidcast.Users.ClientIp.{Source, get_client_ip, get_client_ip-forwarded}
use vidcast.Users.RateLimit.{Limits}
use vidcast.Users.RateLimit.{RateLimiter, Call, checks, resets, new_limiter, replies, check}
use vidcast.Users.RateLimit.Ideal.{ideal_replies, after}
use vidcast.Users.RateLimit.Simulation.{replies-ideal_replies}
use vidcast.Users.Db.{User, empty_db}
use vidcast.Users.Db.History.{same}
use vidcast.Users.Auth.{
  Failure, ceil, user_out, already_registered, new_app, too_many, App, Form, UserOut, register,
  login, read_current_user, enforce, http,
}
use vidcast.Users.Auth.Session.{login-register}
use vidcast.Users.Auth.Failures.{SameLimiters, login-err}
use vidcast.Users.Auth.Attempts.{Attempt, guesses, app_after}
use vidcast.Users.Auth.Guessing.{guesses-twice}
use vidcast.Users.Db.{find_username, same_username, same_email}
use vidcast.Users.Db.History.{row_of}
use vidcast.Users.Table.{any}
use vidcast.Users.Auth.Registration.{register-cases}
use vidcast.Users.Auth.RetryAfter.{enforce-too_many}
use vidcast.Tests.Accounts.{
  lower, security, security-IsSecurity, driver, driver-IsDriver, limits, app, home, ann,
  ann-IsAccepted, form,
}

abbrev out : UserOut
out = record { username = codes "ann"; created_at = 1000; email = codes "ann@example.com" }

abbrev joined : App
joined = (register security lower driver lower 1 app home ann 10 7 1000).0

login-register_example :
    ((n : ℕ) × ((login security lower 1 60 joined home form 11 11 1001).1 ≡ err (too_many n)))
    ⊎ ((token : Str) × ((login security lower 1 60 joined home form 11 11 1001).1 ≡ ok token)
        × (read_current_user security
              (login security lower 1 60 joined home form 11 11 1001).0.db
              2000
              token
            ≡ ok out))
unfolding register nat_eq bytes_eq check lookup new_app
login-register_example =
    login-register security lower driver lower 1 60 10 11 11 7 1000 1001 2000 app joined joined home
      home ann form out security-IsSecurity ann-IsAccepted refl same refl refl (omega arith)

abbrev again : App × Result Failure UserOut
again = register security lower driver lower 1 joined home ann 12 8 1002

abbrev ann_row : User
ann_row = row_of lower joined.db ann.username ann.email (security.hash 8 ann.password) 1002

abbrev asked : RateLimiter × Result ℕ (Unit {0})
asked = check joined.register_ip (get_client_ip home) 12

register-cases_example :
    (again.0.register_ip ≡ asked.0)
    × (((wait : ℕ) × (asked.1 ≡ err wait)
          × (again.0.db ≡ joined.db)
          × (again.1 ≡ err (too_many (ceil 1 wait))))
        ⊎ ((asked.1 ≡ ok tt)
            × (again.0.db ≡ joined.db)
            × (again.1 ≡ err already_registered)
            × ((any (same_username lower ann_row) joined.db.users ≡ true)
                ⊎ (any (same_email lower ann_row) joined.db.users ≡ true)))
        ⊎ ((asked.1 ≡ ok tt)
            × (find_username again.0.db ann.username ≡ some ann_row)
            × (again.1 ≡ ok (user_out ann_row))
            × (any (same_username lower ann_row) joined.db.users ≡ false)
            × (any (same_email lower ann_row) joined.db.users ≡ false)))
register-cases_example =
    register-cases security lower driver lower 1 12 8 1002 joined home ann driver-IsDriver

abbrev wrong_form : Form
wrong_form = record { username = codes "ann"; password = codes "password2" }

-- Where nobody is registered, and where she is.
login-err_example :
    (http 401 (codes "incorrect username or password")
      ≡ http 401 (codes "incorrect username or password"))
    × SameLimiters
        (login security lower 1 60 app home wrong_form 11 11 1001).0
        (login security lower 1 60 joined home wrong_form 11 11 1001).0
unfolding register login nat_eq bytes_eq check lookup new_app first
login-err_example =
    login-err security lower 1 60 11 11 1001 app joined home wrong_form
      (http 401 (codes "incorrect username or password"))
      (http 401 (codes "incorrect username or password")) (refl, refl) refl refl

abbrev guess : ℕ → Attempt
guess now = record {
  db = joined.db;
  source = home;
  form = wrong_form;
  now = now;
  later = now;
  wall = now;
}

guesses-twice_example :
    guesses security lower 1 60
      (codes "ann")
      (app_after security lower 1 60 (new_app limits limits empty_db) (guess 0 ∷ []))
      (guess 60 ∷ guess 61 ∷ [])
    ≤ 2 * 5
unfolding register login nat_eq bytes_eq check lookup new_app insert delete app_after first
    get_client_ip
guesses-twice_example =
    guesses-twice security lower 1 60 limits limits empty_db 0 60 (codes "ann") (guess 0 ∷ [])
      (guess 60 ∷ guess 61 ∷ []) (omega arith) (omega arith, tt) (omega arith, (omega arith, tt))
      (omega arith, omega arith, (λ e. tt), (omega arith, omega arith, (λ e. tt), tt))

abbrev one : Str
one = 1 ∷ []

abbrev two : Str
two = 2 ∷ []

abbrev calls : List (ℕ × Call)
calls = (10, checks one) ∷ (11, resets two) ∷ (200, checks one) ∷ []

abbrev every_check : Limits
every_check = record {
  max_attempts = 5;
  window = 60;
  lockout = 300;
  eviction_sample_size = 1;
  can_sample = omega arith;
}

replies-ideal_replies_example :
    replies (new_limiter every_check) calls ≡ ideal_replies every_check (λ k. none) calls
replies-ideal_replies_example =
    replies-ideal_replies every_check 0 calls (omega arith, (omega arith, (omega arith, tt)))

-- One attempt in an hour.
abbrev strict : RateLimiter
strict =
    (check
      (new_limiter (record {
        max_attempts = 1;
        window = 3600;
        lockout = 300;
        eviction_sample_size = 100;
        can_sample = omega arith;
      }))
      one 10).0

enforce-too_many_example :
    ((311 < 11 + 300 * 1)
      ⊎ ((enforce 1 (after (enforce 1 strict one 11).0 ((20, checks one) ∷ [])) one 311).1 ≡ ok tt))
    × ((11 + (300 * 1 - 1) < 311)
        ⊎ ((m : ℕ) × ((enforce 1
                (after (enforce 1 strict one 11).0 ((20, checks one) ∷ []))
                one
                311).1
              ≡ err (too_many m))))
unfolding check new_limiter lookup insert nat_eq bytes_eq enforce
enforce-too_many_example =
    enforce-too_many 1 11 311 300 strict one ((20, checks one) ∷ []) (omega arith) (refl, tt)
      (omega arith) (omega arith) refl (omega arith, tt, tt)

-- The client claims to be somebody else.
abbrev proxied : Source
proxied = record {
  real_ip = none;
  forwarded_for = some (codes "203.0.113.9, ::1");
  client = some (codes "10.0.0.1");
}

get_client_ip-forwarded_example : get_client_ip proxied ≡ codes "::1"
unfolding nat_eq
get_client_ip-forwarded_example =
    get_client_ip-forwarded proxied (codes "203.0.113.9") (codes "::1") refl refl
      ((λ e. omega (arith, e)), ((λ e. omega (arith, e)), ((λ e. omega (arith, e)), tt)))
      (refl, (refl, (refl, tt)))

-- Two attempts for each address and name. A client who has an account logs in between guesses.
abbrev two_limits : Limits
two_limits = record limits { max_attempts = 2 }

abbrev small : App
small = record (new_app two_limits two_limits empty_db) { db = joined.db }

abbrev guess_of : Str → Form
guess_of name = record { username = name; password = codes "x" }

abbrev try : App → Form → App × Result Failure Str
try a f = login security lower 1 60 a home f 5 5 1000

abbrev spray : App → List Str → List (Result Failure Str)
spray a [] = []
spray a (name ∷ names) =
    let (b, answer) = try a (guess_of name) in let (c, _) = try b form in answer ∷ spray c names

abbrev wrong : Result Failure Str
wrong = err (http 401 (codes "incorrect username or password"))

-- No guess is refused for the address.
spray_lem :
    spray small (one ∷ two ∷ codes "c" ∷ codes "d" ∷ []) ≡ wrong ∷ wrong ∷ wrong ∷ wrong ∷ []
unfolding register login nat_eq bytes_eq check lookup new_app first insert delete get_client_ip
spray_lem = refl
