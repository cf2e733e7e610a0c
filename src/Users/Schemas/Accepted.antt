-- ===== src/Users/Schemas/Accepted.antt =====
-- schemas.py: what is known of a registration that passes.
use vidcast.Users.Text.{utf8_length_lower}
use vidcast.Users.Schemas.{Field}
use vidcast.Base.{
  ◌⊎◌, Result-cases, Bool, false, List, sym, err, none, ◌≤◌, ◌≡◌, ◌≢◌, refl, ap, ◌∙◌, true, ◌&&◌,
  Bool-cases, Option-cases, inl, inr, [], ◌∷◌, map, Option, some, arith, ok, codes, length, leb,
  nat_eq, bytes_eq,
}
use vidcast.Users.Text.{Str, utf8_length, lower_ascii, lower_ascii_idem, lower-IsAscii, IsAscii}
use vidcast.Users.Schemas.{
  Raw, UserCreate, all_name_chars, LowersAscii, check_username, check_email, check_password,
  validate,
}

-- A username as it is stored.
pub record IsUsername (u : Str) : Type 0 where
  pub shortest : 3 ≤ length u
  pub longest : length u ≤ 32
  pub chars : all_name_chars u ≡ true
  pub lowered : map lower_ascii u ≡ u
  pub ascii : IsAscii u
  pub free : u ≢ codes "me"

-- A password that bcrypt reads to its end.
pub record IsPassword (p : Str) : Type 0 where
  pub shortest : 8 ≤ length p
  pub longest : utf8_length p ≤ 72

abbrev pub IsAccepted : UserCreate → Type 0
IsAccepted u = IsUsername u.username × IsPassword u.password

chars-IsAscii : (s : Str) → all_name_chars s ≡ true → IsAscii s
unfolding all_name_chars
chars-IsAscii [] h = tt
chars-IsAscii (c ∷ s) h = (ground arith, chars-IsAscii s (ground arith))

lower-chars : (s : Str) → all_name_chars s ≡ true → all_name_chars (map lower_ascii s) ≡ true
unfolding all_name_chars
lower-chars [] h = refl
lower-chars (c ∷ s) h = let rest = lower-chars s (ground arith) in ground (arith, rest)

length-lower : (s : Str) → length (map lower_ascii s) ≡ length s
length-lower [] = refl
length-lower (c ∷ s) = omega (arith, length-lower s)

check_username-IsUsername :
    (lower : Str → Str) (s u : Str)
    → LowersAscii lower
    → check_username lower s ≡ some u
    → IsUsername u × (u ≡ map lower_ascii s)
unfolding check_username
check_username-IsUsername lower s u l e =
    elim (Bool-cases (leb 3 (length s) && leb (length s) 32 && all_name_chars s)) [
      | inr bad ↦ absurd (ground (arith, bad, e))
      | inl good ↦
          let chars : all_name_chars s ≡ true = ground (arith, good) in
          let low = l s (chars-IsAscii s chars) in
          let same : u ≡ map lower_ascii s = ground (arith, good, e, low) in
          let free : map lower_ascii s ≢ codes "me" = ground (arith, good, e, low) in
          let size : length (map lower_ascii s) ≡ length s = length-lower s in
          (
            record {
              shortest = ground (arith, good, same, size);
              longest = ground (arith, good, same, size);
              chars = ap all_name_chars same ∙ lower-chars s chars;
              lowered = rw same (lower_ascii_idem s);
              ascii = rw same (lower-IsAscii s (chars-IsAscii s chars));
              free = rw same free;
            },
            same,
          )
    ]

check_password-IsPassword : (s p : Str) → check_password s ≡ some p → IsPassword p × (p ≡ s)
unfolding check_password
check_password-IsPassword s p e =
    let same : p ≡ s = ground (arith, e) in
    (record { shortest = ground (arith, e, same); longest = ground (arith, e, same) }, same)

-- What passes has a username of 3 to 32 lower-case letters, digits, `_` and `-`
-- that is not `me` and is the given one in lower case, and the given password, of at least 8
-- characters and at most the 72 bytes that bcrypt reads.
pub validate-IsAccepted :
    (lower : Str → Str) (email : Str → Option Str) (r : Raw) (u : UserCreate)
    → LowersAscii lower
    → validate lower email r ≡ ok u
    → IsAccepted u × (u.username ≡ map lower_ascii r.username) × (u.password ≡ r.password)
unfolding validate
validate-IsAccepted lower email r u l e = elim (Option-cases (check_username lower r.username)) [
  | inl bad ↦ absurd (ground (arith, bad, e))
  | inr (name, a) ↦ elim (Option-cases (check_email lower email r.email)) [
    | inl bad ↦ absurd (ground (arith, a, bad, e))
    | inr (mail, b) ↦ elim (Option-cases (check_password r.password)) [
      | inl bad ↦ absurd (ground (arith, a, b, bad, e))
      | inr (word, c) ↦
          let (named, x) = check_username-IsUsername lower r.username name l a in
          let (strong, y) = check_password-IsPassword r.password word c in
          let same : u ≡ record { username = name; email = mail; password = word } =
            ground (arith, a, b, c, e) in
          rw same ((named, strong), x, y)
    ]
  ]
]

-- What a field has to be. That the username is not reserved, and the password has at most 72
-- characters, follows.
abbrev pub username_ok : Str → Bool
username_ok s = leb 3 (length s) && leb (length s) 32 && all_name_chars s

abbrev pub password_ok : Str → Bool
password_ok s = leb 8 (length s) && leb (utf8_length s) 72

rejected_username :
    (lower : Str → Str) (s : Str)
    → LowersAscii lower
    → check_username lower s ≡ none
    → username_ok s ≡ false
unfolding check_username
rejected_username lower s l e = elim (Bool-cases (username_ok s)) [
  | inr bad ↦ bad
  | inl good ↦
      let chars : all_name_chars s ≡ true = ground (arith, good) in
      let low = l s (chars-IsAscii s chars) in
      let reserved : map lower_ascii s ≡ codes "me" = ground (arith, good, e, low) in
      let size : length s ≡ 2 = sym (length-lower s) ∙ ap length reserved in
      absurd (ground (arith, good, size))
]

rejected_password : (s : Str) → check_password s ≡ none → password_ok s ≡ false
unfolding check_password
rejected_password s e = ground (arith, e, utf8_length_lower s)

rejected_email :
    (lower : Str → Str) (email : Str → Option Str) (s : Str)
    → check_email lower email s ≡ none
    → email s ≡ none
unfolding check_email
rejected_email lower email s e = elim (Option-cases (email s)) [
  | inl bad ↦ bad
  | inr (mail, good) ↦ absurd (ground (arith, good, e))
]

-- A registration, on every branch: it passes, and then has a username of 3 to 32 lower-case
-- letters, digits, `_` and `-` that is not `me` and is the given one in lower case, and the given
-- password, of at least 8 characters and at most the 72 bytes that bcrypt reads; or it fails, and
-- then the username has another length or other characters, the e-mail library refuses the address,
-- or the password has another length. Lowering acts on ASCII as it should.
pub validate-cases :
    (lower : Str → Str) (email : Str → Option Str) (r : Raw)
    → LowersAscii lower
    → ((u : UserCreate) × (validate lower email r ≡ ok u)
        × IsAccepted u
        × (u.username ≡ map lower_ascii r.username)
        × (u.password ≡ r.password))
      ⊎ ((fields : List Field) × (validate lower email r ≡ err fields)
          × ((username_ok r.username ≡ false)
              ⊎ (email r.email ≡ none)
              ⊎ (password_ok r.password ≡ false)))
unfolding validate
validate-cases lower email r l = elim (Result-cases (validate lower email r)) [
  | inr (u, done) ↦
      let (accepted, name, word) = validate-IsAccepted lower email r u l done in
      inl (u, done, accepted, name, word)
  | inl (fields, failed) ↦ inr (
    fields,
    failed,
    elim (Option-cases (check_username lower r.username)) [
      | inl bad ↦ inl (rejected_username lower r.username l bad)
      | inr (name, a) ↦ elim (Option-cases (check_email lower email r.email)) [
        | inl bad ↦ inr (inl (rejected_email lower email r.email bad))
        | inr (mail, b) ↦ elim (Option-cases (check_password r.password)) [
          | inl bad ↦ inr (inr (rejected_password r.password bad))
          | inr (word, c) ↦ absurd (ground (arith, a, b, c, failed))
        ]
      ]
    ],
  )
]
