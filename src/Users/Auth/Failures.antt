-- ===== src/Users/Auth/Failures.antt =====
-- auth.py: what the answers tell of the accounts.
use vidcast.Base.{
  ℕ, ◌≡◌, sym, ap, ap₂, ◌∙◌, Bool-cases, Result-cases, ◌⊎◌, inl, inr, Option-cases, some, ok, err,
  arith, nat_eq, bytes_eq,
}
use vidcast.Users.Text.{Str}
use vidcast.Users.ClientIp.{Source, get_client_ip}
use vidcast.Users.RateLimit.{RateLimiter, reset}
use vidcast.Users.Db.{find_username}
use vidcast.Users.Auth.{Failure, incorrect, App, Form, enforce, login, authenticate}
use vidcast.Users.Security.{Security, password_valid, create_access_token}

-- Nothing of the state but the limiters of the login.
abbrev pub SameLimiters : App → App → Type 0
SameLimiters a b = (a.login_ip ≡ b.login_ip) × (a.login_username ≡ b.login_username)

module _ (s : Security) where
  pub authenticate-cases :
      (minutes wall : ℕ) (app : App) (ip name password : Str)
      → (authenticate s minutes app ip name password wall ≡ (app, err incorrect))
        ⊎ ((token : Str) × (authenticate s minutes app ip name password wall ≡ (
          record app {
            login_ip = reset app.login_ip ip;
            login_username = reset app.login_username name;
          },
          ok token,
        )))
  unfolding authenticate
  authenticate-cases minutes wall app ip name password =
      elim (Option-cases (find_username app.db name)) [
        | inl unknown ↦ inl (ground (arith, unknown))
        | inr (u, known) ↦ elim (Bool-cases (password_valid s (some u) password)) [
          | inl right ↦
              inr (create_access_token s minutes wall u.username, ground (arith, known, right))
          | inr wrong ↦ inl (ground (arith, known, wrong))
        ]
      ]

module _ (s : Security) (lower : Str → Str) where
  abbrev Outcome : Type 0
  Outcome = RateLimiter × RateLimiter × Failure

  -- What the limiters alone say of a login that fails.
  unfoldable refusal : ℕ → RateLimiter → RateLimiter → Source → Form → ℕ → ℕ → Outcome
  unfolding enforce
  refusal hz by_ip by_name source form now later =
      let (l, ip_allowed) = enforce hz by_ip (get_client_ip source) now in
      elim ip_allowed [
        | err f ↦ (l, by_name, f)
        | ok _ ↦
            let (m, name_allowed) = enforce hz by_name (lower form.username) later in
            elim name_allowed [ err f ↦ (l, m, f) | ok _ ↦ (l, m, incorrect) ]
      ]

  login-refusal :
      (hz minutes now later wall : ℕ) (app : App) (source : Source) (form : Form) (f : Failure)
      → (login s lower hz minutes app source form now later wall).1 ≡ err f
      → let c = (login s lower hz minutes app source form now later wall).0 in
        (c.login_ip, c.login_username, f)
        ≡ refusal hz app.login_ip app.login_username source form now later
  unfolding login refusal
  login-refusal hz minutes now later wall app source form f e =
      elim (Result-cases (enforce hz app.login_ip (get_client_ip source) now).1) [
        | inl (g, x) ↦ ground (arith, x, e)
        | inr (_, x) ↦
            elim (Result-cases (enforce hz app.login_username (lower form.username) later).1) [
              | inl (g, y) ↦ ground (arith, x, y, e)
              | inr (_, y) ↦
                  let c : App = record app {
                    login_ip = (enforce hz app.login_ip (get_client_ip source) now).0;
                    login_username = (enforce hz app.login_username (lower form.username) later).0;
                  } in
                  let failed : (authenticate s minutes c (get_client_ip source)
                        (lower form.username) form.password wall).1
                      ≡ err f =
                    ground (arith, x, y, e) in
                  elim (authenticate-cases s minutes wall c (get_client_ip source)
                    (lower form.username) form.password) [
                      | inl answered ↦ ground (arith, x, y, answered, failed)
                      | inr (token, right) ↦ absurd (ground (arith, right, failed))
                    ]
            ]
      ]

  -- A login that fails says nothing of the accounts: whatever users the database holds, two logins
  -- that fail on the same request, with the same limiters, get the same answer and leave the same
  -- limiters, whether the name is unknown or the password wrong.
  pub login-err :
      (hz minutes now later wall : ℕ) (a b : App) (source : Source) (form : Form) (f g : Failure)
      → SameLimiters a b
      → (login s lower hz minutes a source form now later wall).1 ≡ err f
      → (login s lower hz minutes b source form now later wall).1 ≡ err g
      → (f ≡ g)
        × SameLimiters
            (login s lower hz minutes a source form now later wall).0
            (login s lower hz minutes b source form now later wall).0
  login-err hz minutes now later wall a b source form f g (same_ip, same_name) e k =
      let refused =
        login-refusal hz minutes now later wall a source form f e
        ∙ ap₂ (λ l m. refusal hz l m source form now later) same_ip same_name
        ∙ sym (login-refusal hz minutes now later wall b source form g k) in
      (
        ap (λ (o : Outcome). o.2) refused,
        (ap (λ (o : Outcome). o.0) refused, ap (λ (o : Outcome). o.1) refused),
      )
