-- ===== src/Users/Schemas.antt =====
-- services/users/app/schemas.py: what a registration must look like. `EmailStr` is the parameter
-- `email`: the address that the e-mail library makes of the text, or none. `str.lower` is the
-- parameter `lower`; what is relied on is `LowersAscii`.
pub mod Accepted
use vidcast.Base.{
  ℕ, ◌+◌, ◌≤◌, ◌<◌, ◌≡◌, ◌≢◌, refl, sym, ap, ap₂, ◌∙◌, Bool, true, false, not, ◌&&◌, ◌||◌,
  Bool-cases, inl, inr, List, [], ◌∷◌, ◌++◌, map, Option, none, some, arith, All, Bytes, Result, ok,
  err, codes, length, if◌then◌else◌, ◌==◌, contains, ltb, leb, nat_eq, bytes_eq,
}
use vidcast.Users.Text.{Str, utf8_length, lower_ascii, lower_ascii_idem, lower-IsAscii, IsAscii}

-- The fields that an answer 422 names.
pub data Field : Type 0 where
  username_field email_field password_field limit_field offset_field : Field

-- The body before validation.
pub record Raw : Type 0 where
  pub username : Str
  pub email : Str
  pub password : Str

-- `UserCreate`.
pub record UserCreate : Type 0 where
  pub username : Str
  pub email : Str
  pub password : Str

abbrev pub reserved_usernames : List Str
reserved_usernames = codes "me" ∷ []

-- `[a-zA-Z0-9_-]`
abbrev pub is_name_char : ℕ → Bool
is_name_char c =
    (leb b'a' c && leb c b'z')
    || (leb b'A' c && leb c b'Z')
    || (leb b'0' c && leb c b'9')
    || c == b'_'
    || c == b'-'

unfoldable pub all_name_chars : Str → Bool
all_name_chars [] = true
all_name_chars (c ∷ s) = is_name_char c && all_name_chars s

abbrev between : ℕ → ℕ → ℕ → Bool
between low high n = leb low n && leb n high

abbrev pub LowersAscii : (Str → Str) → Type 0
LowersAscii lower = (s : Str) → IsAscii s → lower s ≡ map lower_ascii s

unfoldable pub check_password : Str → Option Str
unfolding utf8_length
check_password s =
    if not (between 8 72 (length s)) then none else if ltb 72 (utf8_length s) then none else some s

abbrev failed : Field → Option Str → List Field → List Field
failed f none rest = f ∷ rest
failed f (some _) rest = rest

module _ (lower : Str → Str) where
  -- The username's constraints and its two validators, in their order.
  unfoldable pub check_username : Str → Option Str
  unfolding all_name_chars
  check_username s =
      if not (between 3 32 (length s) && all_name_chars s)
      then none
      else if contains reserved_usernames (lower s)
      then none
      else some (lower s)

module _ (lower : Str → Str) (email : Str → Option Str) where
  unfoldable pub check_email : Str → Option Str
  check_email s = elim (email s) [ none ↦ none | some e ↦ some (lower e) ]

  -- Every field is looked at; the answer 422 lists those that fail.
  unfoldable pub validate : Raw → Result (List Field) UserCreate
  unfolding check_username check_email check_password
  validate r = elim (check_username lower r.username) [
    | some u ↦ elim (check_email r.email) [
      | some e ↦ elim (check_password r.password) [
        | some p ↦ ok (record { username = u; email = e; password = p })
        | none ↦ err (password_field ∷ [])
      ]
      | none ↦ err (email_field ∷ failed password_field (check_password r.password) [])
    ]
    | none ↦ err (
        username_field
        ∷ failed email_field (check_email r.email)
            (failed password_field (check_password r.password) []))
  ]
