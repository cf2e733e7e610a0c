-- ===== src/Users/Follows/Pages.antt =====
-- routers/users.py: the lists of followers and of followed users, page by page.
use mathlib.Core.List.{Perm, map-map}
use vidcast.Base.{
  ℕ, ◌+◌, ◌≤◌, ◌≡◌, refl, sym, ap, ◌∙◌, Bool, Option-cases, Result-cases, inl, inr, List, [], ◌∷◌,
  ◌++◌, map, take, Option, none, some, Result, ok, arith, All, ◌==◌, nat_eq, bytes_eq, pos,
}
use vidcast.Users.Text.{Str}
use vidcast.Users.Table.{keep, All-keep}
use vidcast.Users.Db.{User, Follow, Db, find_username, find_id}
use vidcast.Users.Db.Invariant.{WellFormed, Refers}
use vidcast.Users.Auth.{Failure}
use vidcast.Users.Follows.Order.{IsSorted, order_by-All, order_by-IsSorted, order_by-Perm}
use vidcast.Users.Follows.Slices.{take-map, skip-map, All-take, All-skip, skip_add, take-append}
use vidcast.Users.Follows.{
  PublicUserOut, public_user_out, get_user_or_404, order_by, skip, followers_of, followed_by,
  check_page, public_users, page_of, list_followers, list_following,
}

abbrev pub IsFound : Option User → Type 0
IsFound o = (u : User) × (o ≡ some u)

-- The profile of the user that a row joins.
abbrev pub profile : Option User → Option PublicUserOut
profile none = none
profile (some u) = some (public_user_out u)

public_users_lem :
    (us : List (Option User))
    → All IsFound us
    → (ps : List PublicUserOut) × (public_users us ≡ ok ps) × (map some ps ≡ map profile us)
unfolding public_users
public_users_lem [] a = ([], refl, refl)
public_users_lem (none ∷ us) ((u, e), a) = absurd (cc)
public_users_lem (some u ∷ us) (_, a) =
    let (ps, e, m) = public_users_lem us a in
    (public_user_out u ∷ ps, rw e refl, ap (λ qs. some (public_user_out u) ∷ qs) m)

public_users-append :
    (us vs : List (Option User)) (ps qs : List PublicUserOut)
    → public_users us ≡ ok ps
    → public_users vs ≡ ok qs
    → public_users (us ++ vs) ≡ ok (ps ++ qs)
unfolding public_users
public_users-append [] vs ps qs e h = ground (arith, e, h)
public_users-append (none ∷ us) vs ps qs e h = absurd (cc)
public_users-append (some u ∷ us) vs ps qs e h = elim (Result-cases (public_users us)) [
  | inl (f, bad) ↦ absurd (ground (arith, bad, e))
  | inr (rs, done) ↦
      let rest = public_users-append us vs rs qs done h in
      let same : public_user_out u ∷ rs ≡ ps = ground (arith, done, e) in rw (rest, ← same) refl
]

sources :
    (db : Db) (fs : List Follow)
    → All (Refers db) fs
    → All (λ f. IsFound (find_id db f.follower_id)) fs
sources db [] h = tt
sources db (f ∷ fs) ((a, b), h) = (a, sources db fs h)

targets :
    (db : Db) (fs : List Follow)
    → All (Refers db) fs
    → All (λ f. IsFound (find_id db f.followed_id)) fs
targets db [] h = tt
targets db (f ∷ fs) ((a, b), h) = (b, targets db fs h)

module _ (db : Db) (id : Follow → ℕ) (p : Follow → Bool) where
  joined :
      (fs : List Follow)
      → All (λ f. IsFound (find_id db (id f))) fs
      → All IsFound (map (λ f. find_id db (id f)) fs)
  joined [] a = tt
  joined (f ∷ fs) (q, a) = (q, joined fs a)

  -- A page of the rows in their order, every row with its user.
  page_lem :
      (limit offset : ℕ)
      → All (λ f. IsFound (find_id db (id f))) db.follows
      → let rows = order_by id (keep p db.follows) in
        (ps : List PublicUserOut) × (page_of (map (λ f. find_id db (id f)) rows) limit offset
          ≡ ok ps)
        × (map some ps ≡ map (λ f. profile (find_id db (id f))) (take limit (skip offset rows)))
  unfolding page_of
  page_lem limit offset a =
      let rows = order_by id (keep p db.follows) in
      let kept =
        order_by-All id (λ f. IsFound (find_id db (id f))) (keep p db.follows)
          (All-keep (λ f. IsFound (find_id db (id f))) p db.follows a) in
      let shown = joined (take limit (skip offset rows)) (
        All-take (λ f. IsFound (find_id db (id f))) limit (skip offset rows)
          (All-skip (λ f. IsFound (find_id db (id f))) offset rows kept)) in
      let (ps, e, m) =
        public_users_lem (map (λ f. find_id db (id f)) (take limit (skip offset rows))) shown in
      let cut : take limit (skip offset (map (λ f. find_id db (id f)) rows))
          ≡ map (λ f. find_id db (id f)) (take limit (skip offset rows)) =
        ap (take limit) (skip-map (λ f. find_id db (id f)) offset rows)
        ∙ take-map (λ f. find_id db (id f)) limit (skip offset rows) in
      (
        ps,
        ap public_users cut ∙ e,
        m ∙ map-map profile (λ f. find_id db (id f)) (take limit (skip offset rows)),
      )

-- The answer is a page of the rows that pass, oldest first, with the user of the other side of each.
abbrev pub Lists :
    Db → (Follow → ℕ) → (Follow → Bool) → ℕ → ℕ → Result Failure (List PublicUserOut) → Type 0
Lists db id p limit offset answer =
    (rows : List Follow) × Perm rows (keep p db.follows)
    × IsSorted id rows
    × ((ps : List PublicUserOut) × (answer ≡ ok ps)
        × (map some ps ≡ map (λ f. profile (find_id db (id f))) (take limit (skip offset rows))))

-- The two lists: on tables that keep their constraints, for a user who exists and a page within the
-- bounds, `list_followers` answers with the users who follow, and `list_following` with those who
-- are followed, in an order of all their rows by time and id, from the offset up to the limit;
-- neither fails.
pub list_followers-Lists :
    (fold lower : Str → Str) (db : Db) (username : Str) (target : User) (limit offset : ℕ)
    → WellFormed fold db
    → find_username db (lower username) ≡ some target
    → 1 ≤ limit
    → limit ≤ 200
    → Lists db
        (λ f. f.follower_id)
        (λ f. f.followed_id == target.id)
        limit
        offset
        (list_followers lower db username (pos limit) (pos offset))
      × Lists db
          (λ f. f.followed_id)
          (λ f. f.follower_id == target.id)
          limit
          offset
          (list_following lower db username (pos limit) (pos offset))
unfolding list_followers list_following check_page get_user_or_404 followers_of followed_by
list_followers-Lists fold lower db username target limit offset w known low high =
    let by : Follow → Bool = λ f. f.followed_id == target.id in
    let of : Follow → Bool = λ f. f.follower_id == target.id in
    let (ps, e, m) =
      page_lem db (λ f. f.follower_id) by limit offset (sources db db.follows w.refers) in
    let (qs, d, n) =
      page_lem db (λ f. f.followed_id) of limit offset (targets db db.follows w.refers) in
    (
      (
        order_by (λ f. f.follower_id) (keep by db.follows),
        order_by-Perm (λ f. f.follower_id) (keep by db.follows),
        order_by-IsSorted (λ f. f.follower_id) (keep by db.follows),
        (ps, ground (arith, known, low, high, e), m),
      ),
      (
        order_by (λ f. f.followed_id) (keep of db.follows),
        order_by-Perm (λ f. f.followed_id) (keep of db.follows),
        order_by-IsSorted (λ f. f.followed_id) (keep of db.follows),
        (qs, ground (arith, known, low, high, d), n),
      ),
    )

-- Two pages that meet are one page: what comes from two successive requests is what one request for
-- both would give, whatever the tables hold.
pub list_followers-append :
    (lower : Str → Str) (db : Db) (username : Str) (m n from : ℕ) (ps qs : List PublicUserOut)
    → m + n ≤ 200
    → list_followers lower db username (pos m) (pos from) ≡ ok ps
    → list_followers lower db username (pos n) (pos (from + m)) ≡ ok qs
    → list_followers lower db username (pos (m + n)) (pos from) ≡ ok (ps ++ qs)
unfolding list_followers check_page page_of get_user_or_404
list_followers-append lower db username m n from ps qs h e k =
    elim (Option-cases (find_username db (lower username))) [
      | inl unknown ↦ absurd (ground (arith, unknown, e))
      | inr (target, known) ↦
          let rows = followers_of db target.id in
          let low : 1 ≤ m = ground (arith, e) in
          let low_n : 1 ≤ n = ground (arith, k) in
          let one : public_users (take m (skip from rows)) ≡ ok ps = ground (arith, known, e) in
          let two : public_users (take n (skip (from + m) rows)) ≡ ok qs =
            ground (arith, known, k) in
          let second =
            ap (λ (rest : List (Option User)). public_users (take n rest))
              (sym (skip_add m from rows))
            ∙ two in
          let both =
            ap public_users (sym (take-append m n (skip from rows)))
            ∙ public_users-append (take m (skip from rows)) (take n (skip m (skip from rows))) ps qs
                one second in
          ground (arith, known, both, low, h)
    ]
