-- ===== src/Users/Auth/Session.antt =====
-- auth.py and deps.py: from the registration to the token.
use vidcast.Base.{
  subst, ℕ, ◌+◌, ◌*◌, ◌≤◌, ◌≡◌, sym, ap, ◌∙◌, true, Result-cases, ◌⊎◌, inl, inr, some, ok, err,
  arith, ◌==◌, nat_eq, bytes_eq,
}
use vidcast.Users.Text.{Str, utf8_length}
use vidcast.Users.Table.{first-passes}
use vidcast.Users.ClientIp.{Source, get_client_ip}
use vidcast.Users.Schemas.{UserCreate}
use vidcast.Users.Schemas.Accepted.{IsAccepted}
use vidcast.Users.RateLimit.{RateLimiter, check}
use vidcast.Users.Db.{User, Db, find_username, insert_user}
use vidcast.Users.Db.History.{
  Later, insert_user_lem, insert_user-find_username, Later-find_username,
}
use vidcast.Users.Auth.{
  Driver, too_many, App, Form, UserOut, user_out, ceil, enforce, register, login, authenticate,
  get_current_user, read_current_user,
}
use vidcast.Users.Security.{
  Security, IsSecurity, password_valid, create_access_token, decode_access_token,
}

module _ (s : Security) where
  valid_lem :
      (user : User) (password : Str)
      → utf8_length password ≤ 72
      → s.verify password user.hashed_password ≡ true
      → password_valid s (some user) password ≡ true
  unfolding password_valid
  valid_lem user password h v = ground (arith, v)

  -- The token of a user names the user until it expires.
  token_lem :
      (db : Db) (minutes wall now : ℕ) (user : User) (name : Str)
      → IsSecurity s
      → find_username db name ≡ some user
      → now ≤ wall + 60 * minutes
      → read_current_user s db now (create_access_token s minutes wall user.username)
        ≡ ok (user_out user)
  unfolding read_current_user get_current_user decode_access_token create_access_token
  token_lem db minutes wall now user name i f h =
      let named : user.username ≡ name =
        ground (arith, first-passes (λ (u : User). u.username == name) db.users user f) in
      ground (arith, i.decode-encode now (wall + 60 * minutes) user.username h, named, f)

  -- The answer to the right password.
  authenticate_lem :
      (minutes wall : ℕ) (app : App) (ip name password : Str) (user : User)
      → find_username app.db name ≡ some user
      → password_valid s (some user) password ≡ true
      → ((authenticate s minutes app ip name password wall).1
          ≡ ok (create_access_token s minutes wall user.username))
        × ((authenticate s minutes app ip name password wall).0.db ≡ app.db)
  unfolding authenticate
  authenticate_lem minutes wall app ip name password user f v = ground (arith, f, v)

pub enforce-cases :
    (hz : ℕ) (l : RateLimiter) (key : Str) (now : ℕ)
    → ((n : ℕ) × ((enforce hz l key now).1 ≡ err (too_many n))) ⊎ ((enforce hz l key now).1 ≡ ok tt)
unfolding enforce
enforce-cases hz l key now = elim (Result-cases (check l key now).1) [
  | inl (wait, e) ↦ inl (ceil hz wait, ground (arith, e))
  | inr (_, e) ↦ inr (ground (arith, e))
]

module _ (s : Security) (lower : Str → Str) where
  login-cases :
      (hz minutes now later wall : ℕ) (app : App) (source : Source) (form : Form) (user : User)
      → find_username app.db (lower form.username) ≡ some user
      → password_valid s (some user) form.password ≡ true
      → let r = login s lower hz minutes app source form now later wall in
        ((n : ℕ) × (r.1 ≡ err (too_many n)))
        ⊎ ((r.1 ≡ ok (create_access_token s minutes wall user.username)) × (r.0.db ≡ app.db))
  unfolding login
  login-cases hz minutes now later wall app source form user f v =
      elim (enforce-cases hz app.login_ip (get_client_ip source) now) [
        | inl (n, e) ↦ inl (n, ground (arith, e))
        | inr free ↦ elim (enforce-cases hz app.login_username (lower form.username) later) [
          | inl (n, e) ↦ inl (n, ground (arith, free, e))
          | inr let_in ↦ inr (
              ground (
                arith,
                free,
                let_in,
                f,
                authenticate_lem s minutes wall
                    (record app {
                      login_ip = (enforce hz app.login_ip (get_client_ip source) now).0;
                      login_username =
                          (enforce hz app.login_username (lower form.username) later).0;
                    })
                    (get_client_ip source) (lower form.username) form.password user f v,
              ))
        ]
      ]

  register_lem :
      (driver : Driver) (fold : Str → Str) (hz now salt created : ℕ) (app b : App) (source : Source)
      (payload : UserCreate) (out : UserOut)
      → register s lower driver fold hz app source payload now salt created ≡ (b, ok out)
      → (u : User) × (insert_user fold app.db payload.username payload.email
            (s.hash salt payload.password)
            created
          ≡ ok (b.db, u))
        × (out ≡ user_out u)
  unfolding register
  register_lem driver fold hz now salt created app b source payload out e =
      elim (enforce-cases hz app.register_ip (get_client_ip source) now) [
        | inl (n, refused) ↦ absurd (ground (arith, refused, e))
        | inr free ↦
            elim (Result-cases (
              insert_user fold app.db payload.username payload.email (s.hash salt payload.password)
                created)) [
                  | inl (v, clash) ↦ absurd (ground (arith, free, clash, e))
                  | inr ((c, u), done) ↦
                      (u, ground (arith, free, done, e), ground (arith, free, done, e))
                ]
      ]

  -- Who has registered can log in: in every later state of the database in which the user has not
  -- been deleted, the password of a registration that was valid and succeeded, under the username
  -- however it is capitalised, is answered by a token, unless a limiter answers 429; and until its
  -- minutes are over the token is answered by `/users/me` with what the registration returned. A
  -- password matches its own hash, and a token is read back until it expires.
  pub login-register :
      (driver : Driver) (fold : Str → Str) (hz minutes now next later salt created wall read_at : ℕ)
      (app a b : App) (source client : Source) (payload : UserCreate) (form : Form) (out : UserOut)
      → IsSecurity s
      → IsAccepted payload
      → register s lower driver fold hz app source payload now salt created ≡ (a, ok out)
      → Later fold app.db.next_id a.db b.db
      → lower form.username ≡ payload.username
      → form.password ≡ payload.password
      → read_at ≤ wall + 60 * minutes
      → let r = login s lower hz minutes b client form next later wall in
        ((n : ℕ) × (r.1 ≡ err (too_many n)))
        ⊎ ((token : Str) × (r.1 ≡ ok token) × (read_current_user s r.0.db read_at token ≡ ok out))
  login-register driver fold hz minutes now next later salt created wall read_at app a b source
        client payload form out i accepted e l same_name same_word before =
      let (u, inserted, shown) =
        register_lem driver fold hz now salt created app a source payload out e in
      let hashed = s.hash salt payload.password in
      let (is_row, _, _) =
        insert_user_lem fold app.db a.db payload.username payload.email hashed created u inserted in
      let found_then =
        insert_user-find_username fold app.db a.db payload.username payload.email hashed created u
          inserted in
      let its_id : u.id ≡ app.db.next_id = ap (λ (x : User). x.id) is_row in
      let found : find_username b.db payload.username ≡ some u =
        Later-find_username fold a.db payload.username u b.db
          (subst (λ id. Later fold id a.db b.db) (sym its_id) l) found_then in
      let its_hash : u.hashed_password ≡ hashed = ap (λ (x : User). x.hashed_password) is_row in
      let valid : password_valid s (some u) form.password ≡ true = rw same_word (
        valid_lem s u payload.password accepted.1.longest
          (ap (s.verify payload.password) its_hash ∙ i.verify-hash salt payload.password)) in
      elim (login-cases hz minutes next later wall b client form u
        (ap (find_username b.db) same_name ∙ found) valid) [
          | inl limited ↦ inl limited
          | inr (answer, kept) ↦ inr (
            create_access_token s minutes wall u.username,
            answer,
            ap
                  (λ db.
                    read_current_user s db read_at (create_access_token s minutes wall u.username))
                  kept
                ∙ token_lem s b.db minutes wall read_at u payload.username i found before
                ∙ ap ok (sym shown),
          )
        ]
