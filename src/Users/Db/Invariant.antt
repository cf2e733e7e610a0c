-- ===== src/Users/Db/Invariant.antt =====
-- models.py: what the constraints keep true of the tables.
use vidcast.Base.{
  subst, ℕ, ◌+◌, ◌<◌, ◌≡◌, refl, Bool, true, false, not, ◌&&◌, ◌||◌, Bool-cases, inl, inr, List, [],
  ◌∷◌, Option, none, some, ok, All, arith, ◌==◌, nat_eq, bytes_eq,
}
use vidcast.Users.Text.{Str}
use vidcast.Users.Table.{first, any, keep, Apart, keep-Apart, All-keep, first-keep, first-passes}
use vidcast.Users.Db.{
  User, Follow, Db, empty_db, is_found, find_id, is_pair, follows_pair, same_username, same_email,
  insert_user, insert_follow, delete_follow, delete_user,
}

abbrev pub user_clash : (Str → Str) → User → User → Bool
user_clash fold u w = same_username fold u w || same_email fold u w

abbrev pub follow_clash : Follow → Follow → Bool
follow_clash f = is_pair f.follower_id f.followed_id

-- Both ends are users.
abbrev pub Refers : Db → Follow → Type 0
Refers db f =
    ((u : User) × (find_id db f.follower_id ≡ some u))
    × ((u : User) × (find_id db f.followed_id ≡ some u))

pub record WellFormed (fold : Str → Str) (db : Db) : Type 0 where
  -- No two users share a username or an e-mail address, in any case.
  pub unique : Apart (user_clash fold) db.users
  pub ids : Apart (λ u w. u.id == w.id) db.users
  pub below : All (λ (u : User). u.id < db.next_id) db.users
  pub pairs : Apart follow_clash db.follows
  pub refers : All (Refers db) db.follows

pub empty_db-WellFormed : (fold : Str → Str) → WellFormed fold empty_db
empty_db-WellFormed fold = record { unique = tt; ids = tt; below = tt; pairs = tt; refers = tt }

any-below :
    (n : ℕ) (us : List User)
    → All (λ (u : User). u.id < n) us
    → any (λ (w : User). n == w.id) us ≡ false
unfolding any
any-below n [] h = refl
any-below n (u ∷ us) (i, h) = ground (arith, any-below n us h)

below-later :
    (n : ℕ) (us : List User) → All (λ (u : User). u.id < n) us → All (λ (u : User). u.id < n + 1) us
below-later n [] h = tt
below-later n (u ∷ us) (i, h) = (omega arith, below-later n us h)

any_or :
    (p q : User → Bool) (us : List User)
    → any p us ≡ false
    → any q us ≡ false
    → any (λ u. p u || q u) us ≡ false
unfolding any
any_or p q [] h k = refl
any_or p q (u ∷ us) h k = ground (arith, any_or p q us, h, k)

-- Another user in front hides nobody.
find_id-cons :
    (u : User) (us : List User) (id : ℕ) (w : User)
    → first (λ (v : User). v.id == id) us ≡ some w
    → (x : User) × (first (λ (v : User). v.id == id) (u ∷ us) ≡ some x)
unfolding first
find_id-cons u us id w e = elim (Bool-cases (u.id == id)) [
  | inl hit ↦ (u, rw hit refl)
  | inr miss ↦ (w, rw miss e)
]

Refers-users :
    (db c : Db) (fs : List Follow)
    → ((id : ℕ) (u : User) → find_id db id ≡ some u → (w : User) × (find_id c id ≡ some w))
    → All (Refers db) fs
    → All (Refers c) fs
Refers-users db c [] more h = tt
Refers-users db c (f ∷ fs) more (((u, a), (w, b)), h) =
    ((more f.follower_id u a, more f.followed_id w b), Refers-users db c fs more h)

pub insert_user-WellFormed :
    (fold : Str → Str) (db c : Db) (name mail hash : Str) (now : ℕ) (u : User)
    → WellFormed fold db
    → insert_user fold db name mail hash now ≡ ok (c, u)
    → WellFormed fold c
unfolding insert_user
insert_user-WellFormed fold db c name mail hash now u w e =
    let row : User = record {
      id = db.next_id;
      username = name;
      email = mail;
      hashed_password = hash;
      created_at = now;
    } in
    elim (Bool-cases (any (same_username fold row) db.users)) [
      | inl taken ↦ absurd (ground (arith, taken, e))
      | inr name_free ↦ elim (Bool-cases (any (same_email fold row) db.users)) [
        | inl taken ↦ absurd (ground (arith, name_free, taken, e))
        | inr mail_free ↦
            let same : record db { users = row ∷ db.users; next_id = db.next_id + 1 } ≡ c =
              ground (arith, name_free, mail_free, e) in
            subst (WellFormed fold) same (record {
              unique = (
                any_or (same_username fold row) (same_email fold row) db.users name_free mail_free,
                w.unique,
              );
              ids = (any-below db.next_id db.users w.below, w.ids);
              below = (omega arith, below-later db.next_id db.users w.below);
              pairs = w.pairs;
              refers =
                  Refers-users db (record db { users = row ∷ db.users; next_id = db.next_id + 1 })
                    db.follows (λ id x k. find_id-cons row db.users id x k) w.refers;
            })
      ]
    ]

found_some : (o : Option User) → is_found o ≡ true → (u : User) × (o ≡ some u)
found_some none h = cc
found_some (some u) h = (u, refl)

pub insert_follow-WellFormed :
    (fold : Str → Str) (db c : Db) (a b now : ℕ)
    → WellFormed fold db
    → insert_follow db a b now ≡ ok c
    → WellFormed fold c
unfolding insert_follow
insert_follow-WellFormed fold db c a b now w e =
    let f : Follow = record { follower_id = a; followed_id = b; created_at = now } in
    elim (Bool-cases (follows_pair db a b)) [
      | inl there ↦ absurd (ground (arith, there, e))
      | inr fresh ↦ elim (Bool-cases (is_found (find_id db a) && is_found (find_id db b))) [
        | inr missing ↦ absurd (ground (arith, fresh, missing, e))
        | inl both ↦
            let same : record db { follows = f ∷ db.follows } ≡ c =
              ground (arith, fresh, both, e) in
            let more : All (Refers db) (f ∷ db.follows) = (
              (
                found_some (find_id db a) (ground (arith, both)),
                found_some (find_id db b) (ground (arith, both)),
              ),
              w.refers,
            ) in
            subst (WellFormed fold) same (record {
              unique = w.unique;
              ids = w.ids;
              below = w.below;
              pairs = (fresh, w.pairs);
              refers = more;
            })
      ]
    ]

pub delete_follow-WellFormed :
    (fold : Str → Str) (db : Db) (a b : ℕ)
    → WellFormed fold db
    → WellFormed fold (delete_follow db a b)
unfolding delete_follow
delete_follow-WellFormed fold db a b w = record {
  unique = w.unique;
  ids = w.ids;
  below = w.below;
  pairs = keep-Apart follow_clash (λ f. not (is_pair a b f)) db.follows w.pairs;
  refers = All-keep (Refers db) (λ f. not (is_pair a b f)) db.follows w.refers;
}

-- A follow of others refers to users that stay.
Refers-others :
    (db : Db) (id : ℕ) (f : Follow)
    → (f.follower_id == id || f.followed_id == id) ≡ false
    → Refers db f
    → Refers (delete_user db id) f
unfolding delete_user
Refers-others db id f n ((u, a), (w, b)) =
    let stays : (x : User) → (x.id == id) ≡ false → not (x.id == id) ≡ true = λ x k. rw k refl in
    let au = first-passes (λ (x : User). x.id == f.follower_id) db.users u a in
    let bw = first-passes (λ (x : User). x.id == f.followed_id) db.users w b in
    (
      (
        u,
        first-keep (λ (x : User). x.id == f.follower_id) (λ x. not (x.id == id)) db.users u a
            (ground (arith, n, au)),
      ),
      (
        w,
        first-keep (λ (x : User). x.id == f.followed_id) (λ x. not (x.id == id)) db.users w b
            (ground (arith, n, bw)),
      ),
    )

Refers-keep :
    (db : Db) (id : ℕ) (fs : List Follow)
    → All (Refers db) fs
    → All
        (Refers (delete_user db id))
        (keep (λ f. not (f.follower_id == id || f.followed_id == id)) fs)
unfolding keep
Refers-keep db id [] h = tt
Refers-keep db id (f ∷ fs) (r, h) = elim (Bool-cases (f.follower_id == id || f.followed_id == id)) [
  | inl goes ↦ rw goes (Refers-keep db id fs h)
  | inr stays ↦ rw stays ((Refers-others db id f stays r, Refers-keep db id fs h))
]

pub delete_user-WellFormed :
    (fold : Str → Str) (db : Db) (id : ℕ) → WellFormed fold db → WellFormed fold (delete_user db id)
unfolding delete_user
delete_user-WellFormed fold db id w = record {
  unique = keep-Apart (user_clash fold) (λ u. not (u.id == id)) db.users w.unique;
  ids = keep-Apart (λ u w. u.id == w.id) (λ u. not (u.id == id)) db.users w.ids;
  below = All-keep (λ (u : User). u.id < db.next_id) (λ u. not (u.id == id)) db.users w.below;
  pairs =
      keep-Apart follow_clash (λ f. not (f.follower_id == id || f.followed_id == id)) db.follows
        w.pairs;
  refers = Refers-keep db id db.follows w.refers;
}
