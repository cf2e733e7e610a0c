-- ===== src/Users/Service/Invariant.antt =====
-- main.py: what holds of the tables whatever is requested.
use vidcast.Users.Service.Valid.{Valid, insert_follow-Valid, insert_user-Valid, delete_follow-Valid}
use vidcast.Base.{
  ℕ, ◌≡◌, refl, sym, subst, Bool-cases, Option-cases, Result-cases, inl, inr, List, [], ◌∷◌, arith,
  ◌==◌, nat_eq, bytes_eq,
}
use vidcast.Users.Text.{Str}
use vidcast.Users.Table.{any}
use vidcast.Users.ClientIp.{Source, get_client_ip}
use vidcast.Users.Schemas.{Raw, LowersAscii, validate}
use vidcast.Users.Schemas.Accepted.{validate-IsAccepted}
use vidcast.Users.RateLimit.{Limits}
use vidcast.Users.Db.{User, Db, empty_db, find_username, insert_user, insert_follow, delete_follow}
use vidcast.Users.Db.Invariant.{empty_db-WellFormed}
use vidcast.Users.Auth.{App, new_app, post_register, register, login, enforce, Form}
use vidcast.Users.Auth.Failures.{authenticate-cases}
use vidcast.Users.Follows.{follow_user, unfollow_user, get_user_or_404, insert_or_ignore}
use vidcast.Users.Service.{
  Request, registers, logs_in, gets_user, follows, unfollows, lists_followers, lists_following,
  Moment, World, current_user, serve, serve_all,
}

module _ (w : World) where
  register-Valid :
      (app : App) (source : Source) (raw : Raw) (now salt created : ℕ)
      → LowersAscii w.lower
      → Valid w.fold app.db
      → Valid w.fold
          (post_register w.security w.lower w.driver w.fold w.email w.hz app source raw now salt
            created).0.db
  unfolding post_register register
  register-Valid app source raw now salt created l v =
      let after =
        post_register w.security w.lower w.driver w.fold w.email w.hz app source raw now salt
          created in
      let stays : app.db ≡ after.0.db → Valid w.fold after.0.db = λ e. subst (Valid w.fold) e v in
      elim (Result-cases (validate w.lower w.email raw)) [
        | inl (f, x) ↦ stays (ground (arith, x))
        | inr (payload, x) ↦
            elim (Result-cases (enforce w.hz app.register_ip (get_client_ip source) now).1) [
              | inl (f, y) ↦ stays (ground (arith, x, y))
              | inr (_, y) ↦
                  let hashed = w.security.hash salt payload.password in
                  elim (Result-cases
                    (insert_user w.fold app.db payload.username payload.email hashed created)) [
                      | inl (f, z) ↦ stays (ground (arith, x, y, z))
                      | inr ((c, u), z) ↦
                          let added : c ≡ after.0.db = ground (arith, x, y, z) in
                          subst (Valid w.fold) added (
                            insert_user-Valid w.fold app.db c payload.username payload.email hashed
                              created u v (validate-IsAccepted w.lower w.email raw payload l x).0.0
                              z)
                    ]
            ]
      ]

  login-db :
      (hz minutes now later wall : ℕ) (app : App) (source : Source) (form : Form)
      → (login w.security w.lower hz minutes app source form now later wall).0.db ≡ app.db
  unfolding login
  login-db hz minutes now later wall app source form =
      elim (Result-cases (enforce hz app.login_ip (get_client_ip source) now).1) [
        | inl (f, x) ↦ ground (arith, x)
        | inr (_, x) ↦
            elim (Result-cases (enforce hz app.login_username (w.lower form.username) later).1) [
              | inl (f, y) ↦ ground (arith, x, y)
              | inr (_, y) ↦
                  let c : App = record app {
                    login_ip = (enforce hz app.login_ip (get_client_ip source) now).0;
                    login_username =
                        (enforce hz app.login_username (w.lower form.username) later).0;
                  } in
                  elim (authenticate-cases w.security minutes wall c (get_client_ip source)
                    (w.lower form.username) form.password) [
                      | inl z ↦ ground (arith, x, y, z)
                      | inr (token, z) ↦ ground (arith, x, y, z)
                    ]
            ]
      ]

  follow_user-Valid :
      (db : Db) (username : Str) (current : User) (now : ℕ)
      → Valid w.fold db
      → Valid w.fold (follow_user w.lower w.driver db db username current now).0
  unfolding follow_user insert_or_ignore get_user_or_404
  follow_user-Valid db username current now v =
      let stays : (c : Db) → db ≡ c → Valid w.fold c = λ c e. subst (Valid w.fold) e v in
      elim (Option-cases (find_username db (w.lower username))) [
        | inl unknown ↦
            stays (follow_user w.lower w.driver db db username current now).0
              (ground (arith, unknown))
        | inr (target, known) ↦ elim (Bool-cases (target.id == current.id)) [
          | inl self ↦
              stays (follow_user w.lower w.driver db db username current now).0
                (ground (arith, known, self))
          | inr other ↦ elim (Result-cases (insert_follow db current.id target.id now)) [
            | inl (x, e) ↦
                stays (follow_user w.lower w.driver db db username current now).0
                  (ground (arith, known, other, e))
            | inr (c, e) ↦
                let added : c ≡ (follow_user w.lower w.driver db db username current now).0 =
                  ground (arith, known, other, e) in
                subst (Valid w.fold) added
                  (insert_follow-Valid w.fold db c current.id target.id now v other e)
          ]
        ]
      ]

  unfollow_user-Valid :
      (db : Db) (username : Str) (current : User)
      → Valid w.fold db
      → Valid w.fold (unfollow_user w.lower db db username current).0
  unfolding unfollow_user get_user_or_404
  unfollow_user-Valid db username current v =
      elim (Option-cases (find_username db (w.lower username))) [
        | inl unknown ↦
            let same : db ≡ (unfollow_user w.lower db db username current).0 =
              ground (arith, unknown) in
            subst (Valid w.fold) same v
        | inr (target, known) ↦
            let same : delete_follow db current.id target.id
                ≡ (unfollow_user w.lower db db username current).0 =
              ground (arith, known) in
            subst (Valid w.fold) same (delete_follow-Valid w.fold db current.id target.id v)
      ]

  serve-Valid :
      (app : App) (m : Moment) (r : Request)
      → LowersAscii w.lower
      → Valid w.fold app.db
      → Valid w.fold (serve w app m r).0.db
  unfolding serve
  serve-Valid app m (registers source raw) l v =
      register-Valid app source raw m.now m.salt m.wall l v
  serve-Valid app m (logs_in source form) l v =
      subst (Valid w.fold) (sym (login-db w.hz w.minutes m.now m.later m.wall app source form)) v
  serve-Valid app m (gets_user segment token) l v = v
  serve-Valid app m (follows username token) l v =
      elim (Result-cases (current_user w app.db m.wall token)) [
        | inl (f, e) ↦
            let same : app.db ≡ (serve w app m (follows username token)).0.db = ground (arith, e) in
            subst (Valid w.fold) same v
        | inr (user, e) ↦
            let done : (follow_user w.lower w.driver app.db app.db username user m.wall).0
                ≡ (serve w app m (follows username token)).0.db =
              ground (arith, e) in
            subst (Valid w.fold) done (follow_user-Valid app.db username user m.wall v)
      ]
  serve-Valid app m (unfollows username token) l v =
      elim (Result-cases (current_user w app.db m.wall token)) [
        | inl (f, e) ↦
            let same : app.db ≡ (serve w app m (unfollows username token)).0.db =
              ground (arith, e) in
            subst (Valid w.fold) same v
        | inr (user, e) ↦
            let done : (unfollow_user w.lower app.db app.db username user).0
                ≡ (serve w app m (unfollows username token)).0.db =
              ground (arith, e) in
            subst (Valid w.fold) done (unfollow_user-Valid app.db username user v)
      ]
  serve-Valid app m (lists_followers username limit offset) l v = v
  serve-Valid app m (lists_following username limit offset) l v = v

  serve_all-Valid_from :
      (app : App) (rs : List (Moment × Request))
      → LowersAscii w.lower
      → Valid w.fold app.db
      → Valid w.fold (serve_all w app rs).db
  unfolding serve_all
  serve_all-Valid_from app [] l v = v
  serve_all-Valid_from app ((m, r) ∷ rs) l v =
      serve_all-Valid_from (serve w app m r).0 rs l (serve-Valid app m r l v)

  -- Whatever has been requested since the service started on empty tables, in whatever order and at
  -- whatever times: no two users have the same name or address in any case, every stored name is
  -- one that registration accepts, in lower case and other than `me`, nobody follows themselves or
  -- anybody twice, and both ends of every follow are users. Lowering acts on ASCII as it should.
  pub serve_all-Valid :
      (register_limits login_limits : Limits) (rs : List (Moment × Request))
      → LowersAscii w.lower
      → Valid w.fold (serve_all w (new_app register_limits login_limits empty_db) rs).db
  unfolding new_app
  serve_all-Valid register_limits login_limits rs l =
      serve_all-Valid_from (new_app register_limits login_limits empty_db) rs l (record {
        well_formed = empty_db-WellFormed w.fold;
        no_self = λ a. unfold any in refl;
        usernames = tt;
      })
