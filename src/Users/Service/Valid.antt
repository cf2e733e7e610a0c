-- ===== src/Users/Service/Valid.antt =====
-- routers/users.py and auth.py: what the handlers keep true of the tables.
use vidcast.Base.{ℕ, ◌≡◌, false, not, ok, arith, All, ◌==◌, nat_eq, bytes_eq}
use vidcast.Users.Text.{Str}
use vidcast.Users.Table.{any, any-keep}
use vidcast.Users.Schemas.Accepted.{IsUsername}
use vidcast.Users.Db.{User, Db, follows_pair, is_pair, insert_user, insert_follow, delete_follow}
use vidcast.Users.Db.Invariant.{
  WellFormed, insert_user-WellFormed, insert_follow-WellFormed, delete_follow-WellFormed,
}
use vidcast.Users.Db.History.{insert_user_lem}
use vidcast.Users.Follows.Pairs.{insert_follow-row}

pub record Valid (fold : Str → Str) (db : Db) : Type 0 where
  pub well_formed : WellFormed fold db
  -- Nobody follows themselves.
  pub no_self : (a : ℕ) → follows_pair db a a ≡ false
  pub usernames : All (λ (u : User). IsUsername u.username) db.users

pub insert_follow-Valid :
    (fold : Str → Str) (db c : Db) (a b now : ℕ)
    → Valid fold db
    → (b == a) ≡ false
    → insert_follow db a b now ≡ ok c
    → Valid fold c
unfolding any
insert_follow-Valid fold db c a b now v other e =
    let row = insert_follow-row db c a b now e in
    record {
      well_formed = insert_follow-WellFormed fold db c a b now v.well_formed e;
      no_self = λ x. let old = v.no_self x in rw row (ground (arith, old, other));
      usernames = rw row v.usernames;
    }

pub insert_user-Valid :
    (fold : Str → Str) (db c : Db) (name mail hash : Str) (now : ℕ) (u : User)
    → Valid fold db
    → IsUsername name
    → insert_user fold db name mail hash now ≡ ok (c, u)
    → Valid fold c
unfolding insert_user
insert_user-Valid fold db c name mail hash now u v valid e =
    let (is_row, rows, _) = insert_user_lem fold db c name mail hash now u e in
    let kept : db.follows ≡ c.follows = ground (arith, e) in
    let named : IsUsername u.username = rw is_row valid in
    record {
      well_formed = insert_user-WellFormed fold db c name mail hash now u v.well_formed e;
      no_self = λ x. rw⁻¹ kept (v.no_self x);
      usernames = rw rows ((named, v.usernames));
    }

pub delete_follow-Valid :
    (fold : Str → Str) (db : Db) (a b : ℕ) → Valid fold db → Valid fold (delete_follow db a b)
unfolding delete_follow
delete_follow-Valid fold db a b v = record {
  well_formed = delete_follow-WellFormed fold db a b v.well_formed;
  no_self = λ x. any-keep (is_pair x x) (λ f. not (is_pair a b f)) db.follows (v.no_self x);
  usernames = v.usernames;
}
