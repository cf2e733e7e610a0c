-- ===== src/Users/Auth/Registration.antt =====
-- auth.py: the answers to a registration.
use vidcast.Base.{
  ℕ, ◌+◌, ◌≡◌, sym, ap, ◌∙◌, true, false, Bool-cases, Result-cases, ◌⊎◌, inl, inr, ◌∷◌, some, ok,
  err, arith, nat_eq, bytes_eq,
}
use vidcast.Users.Text.{Str}
use vidcast.Users.Table.{any}
use vidcast.Users.ClientIp.{Source, get_client_ip}
use vidcast.Users.Schemas.{UserCreate}
use vidcast.Users.Security.{Security}
use vidcast.Users.Db.{
  Db, username_key, email_key, find_username, same_username, same_email, insert_user,
}
use vidcast.Users.Db.History.{row_of, insert_user-find_username}
use vidcast.Users.Auth.{
  Driver, IsDriver, too_many, already_registered, App, ceil, enforce, user_out, register_failure,
  register,
}
use vidcast.Users.RateLimit.{check}

insert_user-cases :
    (fold : Str → Str) (db : Db) (name mail hash : Str) (now : ℕ)
    → let row = row_of fold db name mail hash now in
      ((c : Db) × (insert_user fold db name mail hash now ≡ ok (c, row))
        × (any (same_username fold row) db.users ≡ false)
        × (any (same_email fold row) db.users ≡ false))
      ⊎ ((insert_user fold db name mail hash now ≡ err username_key)
          × (any (same_username fold row) db.users ≡ true))
      ⊎ ((insert_user fold db name mail hash now ≡ err email_key)
          × (any (same_email fold row) db.users ≡ true))
unfolding insert_user
insert_user-cases fold db name mail hash now =
    let row = row_of fold db name mail hash now in
    elim (Bool-cases (any (same_username fold row) db.users)) [
      | inl taken ↦ inr (inl (ground (arith, taken), taken))
      | inr name_free ↦ elim (Bool-cases (any (same_email fold row) db.users)) [
        | inl taken ↦ inr (inr (ground (arith, name_free, taken), taken))
        | inr mail_free ↦ inl (
          record db { users = row ∷ db.users; next_id = db.next_id + 1 },
          ground (arith, name_free, mail_free),
          name_free,
          mail_free,
        )
      ]
    ]

module _ (s : Security) (lower : Str → Str) (driver : Driver) where
  -- A constraint's text is recognised.
  register_failure_lem :
      IsDriver lower driver
      → (register_failure lower driver username_key ≡ already_registered)
        × (register_failure lower driver email_key ≡ already_registered)
  unfolding register_failure
  register_failure_lem d = (ground (arith, d.names_username), ground (arith, d.names_email))

  -- A valid registration, on every branch. The limiter of addresses is asked once, for the client's
  -- address, and is left as it then is. When it refuses, and only then, the answer is 429 with the
  -- time to wait in whole seconds. When it lets the request pass, the answer is 409 exactly when the
  -- name or the address is taken, in whatever case; else the registration succeeds, and the user is
  -- stored under the name with the next id and the hash of the password. When it fails the tables
  -- are as before. The driver's texts name what was violated.
  pub register-cases :
      (fold : Str → Str) (hz now salt created : ℕ) (app : App) (source : Source)
      (payload : UserCreate)
      → IsDriver lower driver
      → let r = register s lower driver fold hz app source payload now salt created in
        let (limiter, reply) = check app.register_ip (get_client_ip source) now in
        let row =
          row_of fold app.db payload.username payload.email
            (s.hash salt payload.password)
            created in
        (r.0.register_ip ≡ limiter)
        × (((wait : ℕ) × (reply ≡ err wait)
              × (r.0.db ≡ app.db)
              × (r.1 ≡ err (too_many (ceil hz wait))))
            ⊎ ((reply ≡ ok tt)
                × (r.0.db ≡ app.db)
                × (r.1 ≡ err already_registered)
                × ((any (same_username fold row) app.db.users ≡ true)
                    ⊎ (any (same_email fold row) app.db.users ≡ true)))
            ⊎ ((reply ≡ ok tt)
                × (find_username r.0.db payload.username ≡ some row)
                × (r.1 ≡ ok (user_out row))
                × (any (same_username fold row) app.db.users ≡ false)
                × (any (same_email fold row) app.db.users ≡ false)))
  unfolding register enforce
  register-cases fold hz now salt created app source payload d =
      let hashed = s.hash salt payload.password in
      let row = row_of fold app.db payload.username payload.email hashed created in
      let (name_text, mail_text) = register_failure_lem d in
      elim (Result-cases (check app.register_ip (get_client_ip source) now).1) [
        | inl (wait, refused) ↦ (
          ground (arith, refused),
          inl (wait, refused, ground (arith, refused), ground (arith, refused)),
        )
        | inr (_, free) ↦
            elim (insert_user-cases fold app.db payload.username payload.email hashed created) [
              | inl (c, done, name_free, mail_free) ↦
                  let stored : c
                      ≡ (register s lower driver fold hz app source payload now salt created).0.db =
                    ground (arith, free, done) in
                  (
                    ground (arith, free, done),
                    inr (
                        inr (
                          free,
                          ap (λ db. find_username db payload.username) (sym stored)
                              ∙ insert_user-find_username fold app.db c payload.username
                                  payload.email hashed created row done,
                          ground (arith, free, done),
                          name_free,
                          mail_free,
                        )),
                  )
              | inr (inl (clash, taken)) ↦ (
                ground (arith, free, clash),
                inr (
                    inl (
                      free,
                      ground (arith, free, clash),
                      ground (arith, free, clash, name_text),
                      inl taken,
                    )),
              )
              | inr (inr (clash, taken)) ↦ (
                ground (arith, free, clash),
                inr (
                    inl (
                      free,
                      ground (arith, free, clash),
                      ground (arith, free, clash, mail_text),
                      inr taken,
                    )),
              )
            ]
      ]
