-- ===== src/Users/Service/Profiles.antt =====
-- main.py and routers/users.py: every user can be looked up.
use vidcast.Base.{
  ℕ, ◌≡◌, ap, ◌∙◌, Bool-cases, inl, inr, Option, some, codes, arith, ◌==◌, nat_eq, bytes_eq,
}
use vidcast.Users.Text.{Str}
use vidcast.Users.Table.{first-All, first-passes}
use vidcast.Users.Schemas.{LowersAscii}
use vidcast.Users.Schemas.Accepted.{IsUsername}
use vidcast.Users.Db.{User, Db, find_username}
use vidcast.Users.Follows.{public_user_out, get_user_or_404, read_user}
use vidcast.Users.Service.{World, shows_profile, get_user}
use vidcast.Users.Service.Valid.{Valid}

lower_me : (lower : Str → Str) → LowersAscii lower → lower (codes "me") ≡ codes "me"
lower_me lower l = l (codes "me") (omega arith, (omega arith, tt))

-- No user is behind the route `/users/me`: whoever is stored under the lower case of the segment is
-- shown at it, whatever token comes along.
pub get_user-profile :
    (w : World) (db : Db) (wall : ℕ) (segment : Str) (token : Option Str) (u : User)
    → LowersAscii w.lower
    → Valid w.fold db
    → find_username db (w.lower segment) ≡ some u
    → get_user w db wall segment token ≡ shows_profile (public_user_out u)
unfolding get_user read_user get_user_or_404
get_user-profile w db wall segment token u l v e =
    let name =
      first-All (λ (x : User). IsUsername x.username) (λ x. x.username == w.lower segment) db.users
        u v.usernames e in
    let named : u.username ≡ w.lower segment =
      ground (arith, first-passes (λ (x : User). x.username == w.lower segment) db.users u e) in
    elim (Bool-cases (segment == codes "me")) [
      | inl me ↦
          let is_me : segment ≡ codes "me" = ground (arith, me) in
          absurd (name.free (named ∙ ap w.lower is_me ∙ lower_me w.lower l))
      | inr other ↦ ground (arith, other, e)
    ]
