-- ===== src/Tests/Follows.antt =====
-- Two users, the second of whom is followed.
use vidcast.Base.{
  ◌≡◌, refl, true, ◌⊎◌, [], ◌∷◌, none, ok, err, codes, arith, nat_eq, bytes_eq, pos, ◌==◌,
}
use vidcast.Users.Table.{first, any}
use vidcast.Users.Db.{User, Follow, Db, find_username, find_id, insert_follow}
use vidcast.Users.Db.Invariant.{WellFormed}
use vidcast.Users.Follows.{
  follow_user, unfollow_user, list_followers, list_following, not_yourself, user_not_found,
  get_user_or_404,
}
use vidcast.Users.Follows.Toggle.{Followed, follow_user-cases, unfollow_user-follow_user}
use vidcast.Users.Follows.Pages.{Lists, list_followers-Lists}
use vidcast.Tests.Accounts.{lower, driver, driver-IsDriver}

abbrev ann : User
ann = record {
  id = 1;
  username = codes "ann";
  email = codes "a@b.c";
  hashed_password = codes "x";
  created_at = 5;
}

abbrev bob : User
bob = record {
  id = 2;
  username = codes "bob";
  email = codes "b@b.c";
  hashed_password = codes "y";
  created_at = 6;
}

abbrev before : Db
before = record { users = bob ∷ ann ∷ []; follows = []; next_id = 3 }

abbrev row : Follow
row = record { follower_id = 1; followed_id = 2; created_at = 9 }

abbrev after : Db
after = record before { follows = row ∷ [] }

after-WellFormed : WellFormed lower after
unfolding any first nat_eq bytes_eq
after-WellFormed = record {
  unique = (refl, (refl, tt));
  ids = (refl, (refl, tt));
  below = (omega arith, (omega arith, tt));
  pairs = (refl, tt);
  refers = (((ann, refl), (bob, refl)), tt);
}

follow_user-cases_example :
    ((c : Db) × (follow_user lower driver before before (codes "Bob") ann 9 ≡ (c, ok tt))
      × Followed lower driver before before c (codes "Bob") ann)
    ⊎ ((follow_user lower driver before before (codes "Bob") ann 9 ≡ (before, err not_yourself))
        × ((target : User) × (get_user_or_404 lower before (codes "Bob") ≡ ok target)
            × ((target.id == ann.id) ≡ true)))
    ⊎ ((follow_user lower driver before before (codes "Bob") ann 9 ≡ (before, err user_not_found))
        × ((find_username before (lower (codes "Bob")) ≡ none)
            ⊎ (find_id before ann.id ≡ none)
            ⊎ ((target : User) × (get_user_or_404 lower before (codes "Bob") ≡ ok target)
                × (find_id before target.id ≡ none))))
follow_user-cases_example =
    follow_user-cases lower driver before before (codes "Bob") ann 9 driver-IsDriver

unfollow_user-follow_user_example :
    unfollow_user lower after after (codes "Bob") ann ≡ (before, ok tt)
unfolding follow_user insert_follow first any nat_eq bytes_eq
unfollow_user-follow_user_example =
    unfollow_user-follow_user lower driver before after (codes "Bob") ann bob 9 driver-IsDriver refl
      refl refl

list_followers-Lists_example :
    Lists after
      (λ f. f.follower_id)
      (λ f. f.followed_id == bob.id)
      50
      0
      (list_followers lower after (codes "Bob") (pos 50) (pos 0))
    × Lists after
        (λ f. f.followed_id)
        (λ f. f.follower_id == bob.id)
        50
        0
        (list_following lower after (codes "Bob") (pos 50) (pos 0))
unfolding first nat_eq bytes_eq
list_followers-Lists_example =
    list_followers-Lists lower lower after (codes "Bob") bob 50 0 after-WellFormed refl
      (omega arith) (omega arith)
