-- ===== src/Users/Auth/Guessing.antt =====
-- auth.py with rate_limit.py: how often a password can be guessed.
use vidcast.Users.Auth.Attempts.{
  Attempt, attempt_login, app_after, guesses, IsErr, FailInside, trace, login-Effect, skipped,
  checked, cleared,
}
use vidcast.Base.{
  ℕ, ◌+◌, ◌*◌, ◌≤◌, ◌≡◌, ◌≢◌, refl, ap, subst, ◌∙◌, List, [], ◌∷◌, arith, nat_eq, bytes_eq,
}
use vidcast.Users.Text.{Str}
use vidcast.Users.RateLimit.{Limits, new_limiter, reset_all, step, replies}
use vidcast.Users.RateLimit.Ideal.{after, last, InOrder}
use vidcast.Users.RateLimit.Budget.{admitted, AllInside, admitted-twice}
use vidcast.Users.Db.{Db}
use vidcast.Users.Auth.{App, new_app}
use vidcast.Users.Security.{Security}

module _ (s : Security) (lower : Str → Str) (hz minutes : ℕ) where
  trace-after :
      (app : App) (more : List Attempt)
      → (app_after s lower hz minutes app more).login_username
        ≡ after app.login_username (trace s lower hz minutes app more)
  unfolding app_after trace after step
  trace-after app [] = refl
  trace-after app (a ∷ more) =
      let rest = trace-after (attempt_login s lower hz minutes app a).0 more in
      elim (login-Effect s lower hz minutes app a) [
        | skipped c l _ ↦ rw c (
            rest
            ∙ ap
                (λ m.
                  after m
                    (trace s lower hz minutes (attempt_login s lower hz minutes app a).0 more))
                l)
        | checked c l _ ↦ rw c (
            rest
            ∙ ap
                (λ m.
                  after m
                    (trace s lower hz minutes (attempt_login s lower hz minutes app a).0 more))
                l)
        | cleared c l _ _ ↦ rw c (
            rest
            ∙ ap
                (λ m.
                  after m
                    (trace s lower hz minutes (attempt_login s lower hz minutes app a).0 more))
                l)
      ]

  -- The passwords tried are attempts that the limiter lets through.
  guesses-admitted :
      (from to : ℕ) (name : Str) (app : App) (more : List Attempt)
      → FailInside s lower hz minutes from to name app more
      → guesses s lower hz minutes name app more
        ≤ admitted name
            (trace s lower hz minutes app more)
            (replies app.login_username (trace s lower hz minutes app more))
  unfolding guesses trace admitted replies step
  guesses-admitted from to name app [] h = omega arith
  guesses-admitted from to name app (a ∷ more) (i, j, fails, h) =
      let rest = guesses-admitted from to name (attempt_login s lower hz minutes app a).0 more h in
      elim (login-Effect s lower hz minutes app a) [
        | skipped c l w ↦ rw c (ground (arith, rest, l, w))
        | checked c l w ↦ rw c (ground (arith, rest, l, w))
        | cleared c l token done ↦ rw c (ground (arith, rest, l, done))
      ]

  AllInside-trace :
      (from to : ℕ) (name : Str) (app : App) (more : List Attempt)
      → FailInside s lower hz minutes from to name app more
      → AllInside from to name (trace s lower hz minutes app more)
  unfolding trace
  AllInside-trace from to name app [] h = tt
  AllInside-trace from to name app (a ∷ more) (i, j, fails, h) =
      let rest = AllInside-trace from to name (attempt_login s lower hz minutes app a).0 more h in
      elim (login-Effect s lower hz minutes app a) [
        | skipped c l w ↦ rw c rest
        | checked c l w ↦ rw c ((i, j, tt, rest))
        | cleared c l token done ↦
            let other : lower a.form.username ≢ name =
              λ e. subst (IsErr s lower hz minutes) done (fails e) in
            rw c ((i, j, tt, (i, j, other, rest)))
      ]

  -- No attempt is earlier than the one before.
  abbrev pub Ordered : ℕ → List Attempt → Type 0
  Ordered t [] = Unit
  Ordered t (a ∷ more) = (t ≤ a.later) × Ordered a.later more

  abbrev pub last_time : ℕ → List Attempt → ℕ
  last_time t [] = t
  last_time t (a ∷ more) = last_time a.later more

  -- The limiter's last call is not after the last attempt.
  trace-InOrder :
      (t u : ℕ) (app : App) (more : List Attempt)
      → t ≤ u
      → Ordered u more
      → InOrder t (trace s lower hz minutes app more)
        × (last t (trace s lower hz minutes app more) ≤ last_time u more)
  unfolding trace
  trace-InOrder t u app [] h o = (tt, h)
  trace-InOrder t u app (a ∷ more) h (i, o) = elim (login-Effect s lower hz minutes app a) [
    | skipped c l w ↦
        rw c
          (trace-InOrder t a.later (attempt_login s lower hz minutes app a).0 more (omega arith) o)
    | checked c l w ↦
        let (p, q) =
          trace-InOrder a.later a.later (attempt_login s lower hz minutes app a).0 more
            (omega arith) o in
        rw c (((omega arith, p), q))
    | cleared c l token done ↦
        let (p, q) =
          trace-InOrder a.later a.later (attempt_login s lower hz minutes app a).0 more
            (omega arith) o in
        rw c (((omega arith, (omega arith, p)), q))
  ]

  -- The bound on guessing a password: where a lockout is at least as long as the window, at most
  -- twice the maximum of passwords are tried for a username in any interval as long as the window in
  -- which no login to it succeeds, from however many addresses, whatever was requested since the
  -- service started and whatever the database held each time, if the requests reach the limiter of
  -- usernames in the order of their times.
  pub guesses-twice :
      (register_limits limits : Limits) (db : Db) (t from : ℕ) (name : Str)
      (before more : List Attempt)
      → limits.window ≤ limits.lockout
      → Ordered t before
      → Ordered (last_time t before) more
      → FailInside s lower hz minutes from
          (from + limits.window)
          name
          (app_after s lower hz minutes (new_app register_limits limits db) before)
          more
      → guesses s lower hz minutes name
          (app_after s lower hz minutes (new_app register_limits limits db) before)
          more
        ≤ 2 * limits.max_attempts
  unfolding new_app new_limiter reset_all
  guesses-twice register_limits limits db t from name before more w o p h =
      let start = new_app register_limits limits db in
      let app = app_after s lower hz minutes start before in
      let (ordered, ended) = trace-InOrder t t start before (omega arith) o in
      let (later_ordered, _) =
        trace-InOrder (last t (trace s lower hz minutes start before)) (last_time t before) app more
          ended p in
      let inside = AllInside-trace from (from + limits.window) name app more h in
      let bound =
        admitted-twice limits t from name (trace s lower hz minutes start before)
          (trace s lower hz minutes app more) w ordered later_ordered inside in
      let tried = guesses-admitted from (from + limits.window) name app more h in
      let counted =
        ap
          (λ l.
            admitted name (trace s lower hz minutes app more)
              (replies l (trace s lower hz minutes app more)))
          (trace-after start before) in
      omega (arith, bound, tried, counted)
