-- ===== src/Users/Auth/Attempts.antt =====
-- auth.py with rate_limit.py: logins one after another, and the calls that they make of the limiter of usernames.
use vidcast.Base.{
  ℕ, ◌+◌, ◌<◌, ◌≤◌, ◌≡◌, Result-cases, inl, inr, List, [], ◌∷◌, ◌++◌, Result, ok, err, arith,
  if◌then◌else◌, ◌==◌, nat_eq, bytes_eq,
}
use vidcast.Users.Text.{Str}
use vidcast.Users.ClientIp.{Source, get_client_ip}
use vidcast.Users.RateLimit.{check, reset, Call, checks, resets}
use vidcast.Users.RateLimit.Budget.{gain}
use vidcast.Users.Db.{Db}
use vidcast.Users.Auth.Failures.{authenticate-cases}
use vidcast.Users.Auth.{Failure, http, App, Form, enforce, login}
use vidcast.Users.Security.{Security}

-- A request for a token: the database and the clocks that it finds.
pub record Attempt : Type 0 where
  pub db : Db
  pub source : Source
  pub form : Form
  pub now : ℕ
  pub later : ℕ
  pub wall : ℕ

-- 1 for an answer 401: a password was tried.
abbrev pub wrong : Result Failure Str → ℕ
wrong (err (http _ _)) = 1
wrong _ = 0

module _ (s : Security) (lower : Str → Str) (hz minutes : ℕ) where
  abbrev pub attempt_login : App → Attempt → App × Result Failure Str
  attempt_login app a =
      login s lower hz minutes (record app { db = a.db }) a.source a.form a.now a.later a.wall

  unfoldable pub app_after : App → List Attempt → App
  app_after app [] = app
  app_after app (a ∷ more) = app_after (attempt_login app a).0 more

  -- The passwords tried for the name.
  unfoldable pub guesses : Str → App → List Attempt → ℕ
  guesses name app [] = 0
  guesses name app (a ∷ more) =
      let (c, answer) = attempt_login app a in
      let rest = guesses name c more in
      if lower a.form.username == name then wrong answer + rest else rest

  abbrev pub IsErr : Result Failure Str → Type 0
  IsErr (ok _) = ⊥
  IsErr (err _) = Unit

  -- The attempts are in the interval, and those for the name fail.
  abbrev pub FailInside : ℕ → ℕ → Str → App → List Attempt → Type 0
  FailInside from to name app [] = Unit
  FailInside from to name app (a ∷ more) =
      (from ≤ a.later)
      × (a.later < to)
      × (lower a.form.username ≡ name → IsErr (attempt_login app a).1)
      × FailInside from to name (attempt_login app a).0 more

  -- The calls of the username's limiter.
  abbrev pub calls : App → Attempt → List (ℕ × Call)
  calls app a =
      let key = lower a.form.username in
      elim (enforce hz app.login_ip (get_client_ip a.source) a.now).1 [
        | err _ ↦ []
        | ok _ ↦ elim (attempt_login app a).1 [
          | err _ ↦ (a.later, checks key) ∷ []
          | ok _ ↦ (a.later, checks key) ∷ (a.later, resets key) ∷ []
        ]
      ]

  unfoldable pub trace : App → List Attempt → List (ℕ × Call)
  trace app [] = []
  trace app (a ∷ more) = calls app a ++ trace (attempt_login app a).0 more

  -- What one request does to the limiter.
  pub data Effect (app : App) (a : Attempt) : Type 0 where
    skipped :
        calls app a ≡ []
        → (attempt_login app a).0.login_username ≡ app.login_username
        → wrong (attempt_login app a).1 ≡ 0
        → Effect app a
    checked :
        calls app a ≡ (a.later, checks (lower a.form.username)) ∷ []
        → (attempt_login app a).0.login_username
          ≡ (check app.login_username (lower a.form.username) a.later).0
        → wrong (attempt_login app a).1
          ≤ gain (check app.login_username (lower a.form.username) a.later).1
        → Effect app a
    cleared :
        calls app a
          ≡ (a.later, checks (lower a.form.username))
            ∷ (a.later, resets (lower a.form.username))
            ∷ []
        → (attempt_login app a).0.login_username
          ≡ reset
              (check app.login_username (lower a.form.username) a.later).0
              (lower a.form.username)
        → (token : Str) → (attempt_login app a).1 ≡ ok token
        → Effect app a

  pub login-Effect : (app : App) (a : Attempt) → Effect app a
  unfolding login enforce
  login-Effect app a = elim (Result-cases (check app.login_ip (get_client_ip a.source) a.now).1) [
    | inl (n, x) ↦ skipped (ground (arith, x)) (ground (arith, x)) (ground (arith, x))
    | inr (_, x) ↦
        elim (Result-cases (check app.login_username (lower a.form.username) a.later).1) [
          | inl (n, y) ↦
              checked (ground (arith, x, y)) (ground (arith, x, y)) (ground (arith, x, y))
          | inr (_, y) ↦
              let c : App = record app {
                db = a.db;
                login_ip = (check app.login_ip (get_client_ip a.source) a.now).0;
                login_username = (check app.login_username (lower a.form.username) a.later).0;
              } in
              elim (authenticate-cases s minutes a.wall c (get_client_ip a.source)
                (lower a.form.username) a.form.password) [
                  | inl z ↦
                      checked (ground (arith, x, y, z)) (ground (arith, x, y, z))
                        (ground (arith, x, y, z))
                  | inr (token, z) ↦
                      cleared (ground (arith, x, y, z)) (ground (arith, x, y, z)) token
                        (ground (arith, x, y, z))
                ]
        ]
  ]
