-- ===== src/Users/Db/History.antt =====
-- models.py: the steps that a database takes.
use vidcast.Base.{
  ℕ, ◌≡◌, ◌≢◌, refl, sym, ap, ◌∙◌, true, false, not, Bool-cases, inl, inr, List, [], ◌∷◌, some, ok,
  arith, ◌==◌, nat_eq, bytes_eq, ==-refl,
}
use vidcast.Users.Text.{Str}
use vidcast.Users.Table.{first, any, first-keep}
use vidcast.Users.Db.{
  User, Db, empty_db, find_username, same_username, same_email, insert_user, insert_follow,
  delete_follow, delete_user,
}
use vidcast.Users.Db.Invariant.{
  WellFormed, empty_db-WellFormed, insert_user-WellFormed, insert_follow-WellFormed,
  delete_follow-WellFormed, delete_user-WellFormed,
}

module _ (fold : Str → Str) where
  -- A statement of a handler, or the deletion of a user by hand.
  pub data Step (db : Db) : Db → Type 0 where
    registers :
        (name mail hash : Str) (now : ℕ) (c : Db) (u : User)
        → insert_user fold db name mail hash now ≡ ok (c, u)
        → Step db c
    follows : (a b now : ℕ) (c : Db) → insert_follow db a b now ≡ ok c → Step db c
    unfollows : (a b : ℕ) → Step db (delete_follow db a b)
    deletes : (id : ℕ) → Step db (delete_user db id)

  pub data Reach : Db → Type 0 where
    start : Reach empty_db
    next : (db c : Db) → Reach db → Step db c → Reach c

  Step-WellFormed : (db c : Db) → Step db c → WellFormed fold db → WellFormed fold c
  Step-WellFormed db _ (registers name mail hash now c u e) w =
      insert_user-WellFormed fold db c name mail hash now u w e
  Step-WellFormed db _ (follows a b now c e) w = insert_follow-WellFormed fold db c a b now w e
  Step-WellFormed db _ (unfollows a b) w = delete_follow-WellFormed fold db a b w
  Step-WellFormed db _ (deletes id) w = delete_user-WellFormed fold db id w

  -- Whatever registrations, follows, unfollows and deletions have happened, no two users have the
  -- same name or address in any case, ids are not used again, nobody follows somebody twice, and
  -- both ends of every follow are users.
  pub Reach-WellFormed : (db : Db) → Reach db → WellFormed fold db
  Reach-WellFormed _ start = empty_db-WellFormed fold
  Reach-WellFormed _ (next b db r s) = Step-WellFormed b db s (Reach-WellFormed b r)

  -- The step does not delete this user.
  abbrev pub Spares : {db c : Db} → ℕ → Step db c → Type 0
  Spares id (deletes j) = j ≢ id
  Spares id (registers _ _ _ _ _ _ _) = Unit
  Spares id (follows _ _ _ _ _) = Unit
  Spares id (unfollows _ _) = Unit

  -- A later state of the database in which this user has not been deleted.
  pub data Later (id : ℕ) (db : Db) : Db → Type 0 where
    same : Later id db db
    further : (b c : Db) → Later id db b → (s : Step b c) → Spares id s → Later id db c

  abbrev pub row_of : Db → Str → Str → Str → ℕ → User
  row_of db name mail hash now = record {
    id = db.next_id;
    username = name;
    email = mail;
    hashed_password = hash;
    created_at = now;
  }

  pub insert_user_lem :
      (db c : Db) (name mail hash : Str) (now : ℕ) (u : User)
      → insert_user fold db name mail hash now ≡ ok (c, u)
      → (u ≡ row_of db name mail hash now)
        × (c.users ≡ u ∷ db.users)
        × (any (same_username fold u) db.users ≡ false)
  unfolding insert_user
  insert_user_lem db c name mail hash now u e =
      let row = row_of db name mail hash now in
      elim (Bool-cases (any (same_username fold row) db.users)) [
        | inl taken ↦ absurd (ground (arith, taken, e))
        | inr name_free ↦ elim (Bool-cases (any (same_email fold row) db.users)) [
          | inl taken ↦ absurd (ground (arith, name_free, taken, e))
          | inr mail_free ↦
              let same_user : row ≡ u = ground (arith, name_free, mail_free, e) in
              let same_rows : row ∷ db.users ≡ c.users = ground (arith, name_free, mail_free, e) in
              (
                sym same_user,
                sym same_rows ∙ ap (λ x. x ∷ db.users) same_user,
                rw⁻¹ same_user name_free,
              )
        ]
      ]

  -- The new user is found under the new name.
  pub insert_user-find_username :
      (db c : Db) (name mail hash : Str) (now : ℕ) (u : User)
      → insert_user fold db name mail hash now ≡ ok (c, u)
      → find_username c name ≡ some u
  unfolding first
  insert_user-find_username db c name mail hash now u e =
      let (is_row, rows, free) = insert_user_lem db c name mail hash now u e in
      let named : (u.username == name) ≡ true = rw is_row (==-refl name) in rw (rows, named) refl

  insert_follow-users :
      (db c : Db) (a b now : ℕ) → insert_follow db a b now ≡ ok c → c.users ≡ db.users
  unfolding insert_follow
  insert_follow-users db c a b now e = ground (arith, e)

  -- A user with another name is not the one found.
  any-first-username :
      (u v : User) (us : List User) (name : Str)
      → any (same_username fold v) us ≡ false
      → first (λ (w : User). w.username == name) us ≡ some u
      → (v.username == name) ≡ false
  unfolding any first
  any-first-username u v [] name n f = cc
  any-first-username u v (w ∷ us) name n f = elim (Bool-cases (w.username == name)) [
    | inl hit ↦ ground (arith, n, hit)
    | inr miss ↦ any-first-username u v us name (ground (arith, n)) (ground (arith, f, miss))
  ]

  Step-find_username :
      (db c : Db) (name : Str) (u : User) (s : Step db c)
      → Spares u.id s
      → find_username db name ≡ some u
      → find_username c name ≡ some u
  Step-find_username db _ name u (registers n mail hash now c v e) p f =
      let (is_row, rows, free) = insert_user_lem db c n mail hash now v e in
      let other = any-first-username u v db.users name free f in unfold first in rw (rows, other) f
  Step-find_username db _ name u (follows a b now c e) p f =
      ap (λ (us : List User). first (λ w. w.username == name) us)
        (insert_follow-users db c a b now e)
      ∙ f
  Step-find_username db _ name u (unfollows a b) p f = unfold delete_follow in f
  Step-find_username db _ name u (deletes id) p f =
      unfold delete_user in
      first-keep (λ (v : User). v.username == name) (λ v. not (v.id == id)) db.users u f
        (ground (arith, p))

  -- A user who is not deleted keeps the name.
  pub Later-find_username :
      (db : Db) (name : Str) (u : User) (c : Db)
      → Later u.id db c
      → find_username db name ≡ some u
      → find_username c name ≡ some u
  Later-find_username db name u _ same f = f
  Later-find_username db name u _ (further b c l s p) f =
      Step-find_username b c name u s p (Later-find_username db name u b l f)
