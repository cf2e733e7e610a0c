-- ===== src/Ci/BumpTag.antt =====
-- .github/scripts/bump_image_tag.py: the tag of an image in a manifest. The text is a list of code
-- points; a line keeps its end.
pub mod Change
pub mod Block
pub mod Sound
pub mod Complete
pub mod Run
pub mod Trim
pub mod TagLine
pub mod Again
use vidcast.Base.{
  ℕ, ◌≡◌, refl, ◌+◌, ◌-◌, Bool, true, false, not, ◌&&◌, ◌||◌, List, [], ◌∷◌, ◌++◌, Option, none,
  some, take, Result, ok, err, ◌>>=◌, Bytes, codes, if◌then◌else◌, ◌==◌, leb, nat_eq, bytes_eq,
}
use vidcast.Go.Strings.{has_prefix, drop, trim, trim_left}

-- `str.isspace`.
abbrev pub is_space : ℕ → Bool
is_space c =
    (leb 9 c && leb c 13)
    || (leb 28 c && leb c 32)
    || c == 0x85
    || c == 0xa0
    || c == 0x1680
    || (leb 0x2000 c && leb c 0x200a)
    || c == 0x2028
    || c == 0x2029
    || c == 0x202f
    || c == 0x205f
    || c == 0x3000

-- The ends of a line for `splitlines`; `\r\n` is one end.
abbrev pub is_break : ℕ → Bool
is_break c =
    (leb 10 c && leb c 13) || (leb 28 c && leb c 30) || c == 0x85 || c == 0x2028 || c == 0x2029

abbrev pub push : ℕ → List Bytes → List Bytes
push c [] = (c ∷ []) ∷ []
push c (l ∷ ls) = (c ∷ l) ∷ ls

abbrev pub starts_lf : Bytes → Bool
starts_lf (c ∷ _) = c == 10
starts_lf [] = false

-- `text.splitlines(keepends=True)`.
unfoldable pub split_lines : Bytes → List Bytes
split_lines [] = []
split_lines (c ∷ s) =
    let rest = split_lines s in
    if is_break c && not (c == 13 && starts_lf s) then (c ∷ []) ∷ rest else push c rest

-- `"".join(lines)`.
unfoldable pub join_lines : List Bytes → Bytes
join_lines [] = []
join_lines (l ∷ ls) = l ++ join_lines ls

-- `len(line) - len(line.lstrip(p))`, and what is stripped.
unfoldable pub leading : (ℕ → Bool) → Bytes → Bytes
leading p [] = []
leading p (c ∷ s) = let rest = leading p s in if p c then c ∷ rest else []

abbrev pub count : Bytes → ℕ
count [] = 0
count (_ ∷ s) = count s + 1

abbrev pub indent_of : Bytes → ℕ
indent_of line = count (leading (λ c. c == b' ') line)

unfoldable pub strip : Bytes → Bytes
unfolding trim
strip s = trim is_space s

-- From the first `#` on, if there is one.
unfoldable pub from_hash : Bytes → Option Bytes
from_hash [] = none
from_hash (c ∷ s) = let rest = from_hash s in if c == b'#' then some (c ∷ s) else rest

abbrev pub trailing_comment : Bytes → Bytes
trailing_comment content = elim (from_hash content) [
  | none ↦ []
  | some comment ↦ codes "  " ++ strip comment
]

-- The line that replaces a tag's.
unfoldable pub tag_line : Bytes → Bytes → Bytes
unfolding leading from_hash strip
tag_line new_tag line =
    leading is_space line
    ++ codes "tag: "
    ++ new_tag
    ++ trailing_comment (strip (drop 4 (strip line)))
    ++ codes "\n"

pub data BumpError : Type 0 where
  many_tags many_blocks no_tag : BumpError

-- `image_indent`, `seen_image_block` and `found_image_tag`.
pub record Scan : Type 0 where
  pub image_indent : Option ℕ
  pub seen : Bool
  pub found : Bool

abbrev pub start : Scan
start = record { image_indent = none; seen = false; found = false }

-- The part of the loop's body on `image_indent`: the block that is left, or a tag in it.
pub data Inside : Type 0 where
  tag : Inside
  goes_on : Option ℕ → Inside

unfoldable pub inside : Option ℕ → Bytes → Inside
unfolding strip has_prefix
inside none line = goes_on none
inside (some indent) line =
    if not (strip line == []) && leb (indent_of line) indent
    then goes_on none
    else if has_prefix (strip line) (codes "tag:")
    then tag
    else goes_on (some indent)

-- The part on a new block.
unfoldable pub opens : Scan → Bytes → Result BumpError Scan
unfolding strip
opens s line =
    if strip line == codes "image:"
    then if s.seen
      then err many_blocks
      else ok (record s { seen = true; image_indent = some (indent_of line) })
    else ok s

-- The loop. At the end there has to be a tag.
unfoldable pub bump_lines : Bytes → Scan → List Bytes → Result BumpError (List Bytes)
unfolding inside opens tag_line
bump_lines new_tag s [] = if s.found then ok [] else err no_tag
bump_lines new_tag s (line ∷ lines) = elim (inside s.image_indent line) [
  | tag ↦
      let rest = bump_lines new_tag (record s { found = true }) lines in
      if s.found then err many_tags else rest >>= λ out. ok (tag_line new_tag line ∷ out)
  | goes_on indent ↦ opens (record s { image_indent = indent }) line >>= λ t.
      bump_lines new_tag t lines >>= λ out. ok (line ∷ out)
]

-- `bump_tag`.
unfoldable pub bump_tag : Bytes → Bytes → Result BumpError Bytes
unfolding split_lines join_lines bump_lines
bump_tag text new_tag =
    bump_lines new_tag start (split_lines text) >>= λ lines. ok (join_lines lines)

-- What `read` makes of the ends of lines in a file that is opened as text: `\r\n` and `\r` become
-- `\n`. `write` leaves them, where the system's own end of a line is `\n`.
unfoldable pub universal : Bytes → Bytes
universal [] = []
universal (c ∷ s) =
    let rest = universal s in if c == 13 then if starts_lf s then rest else 10 ∷ rest else c ∷ rest

-- Files by their path, each with its text in the encoding of the locale, if it can be read and
-- decoded.
abbrev pub Files : Type 0
Files = Bytes → Option Bytes

abbrev pub write_file : Files → Bytes → Bytes → Files
write_file files path text p = if p == path then some text else files p

-- What becomes of the second `with`: the text is written, or the file cannot be opened for writing,
-- or, after `open` has emptied it, only so much of the text gets there.
pub data Writing : Type 0 where
  completes unwritable : Writing
  breaks_off : ℕ → Writing

-- What ends the script with a traceback.
pub data Raised : Type 0 where
  not_read not_written : Raised
  value_error : BumpError → Raised

unfoldable pub write_text : Writing → Files → Bytes → Bytes → Files × Result Raised ℕ
write_text completes files path text = (write_file files path text, ok 0)
write_text unwritable files path text = (files, err not_written)
write_text (breaks_off n) files path text = (write_file files path (take n text), err not_written)

unfoldable pub rewrite : Writing → Files → Bytes → Bytes → Files × Result Raised ℕ
unfolding universal bump_tag write_text
rewrite writing files path new_tag = elim (files path) [
  | none ↦ (files, err not_read)
  | some text ↦ elim (bump_tag (universal text) new_tag) [
    | err e ↦ (files, err (value_error e))
    | ok new_text ↦ write_text writing files path new_text
  ]
]

-- `main`, and its exit code.
unfoldable pub main : Writing → Files → List Bytes → Files × Result Raised ℕ
unfolding rewrite
main writing files (_ ∷ path ∷ new_tag ∷ []) = rewrite writing files path new_tag
main writing files _ = (files, ok 2)

abbrev manifest : Bytes
manifest = codes "image:\n  tag: old # set by CI\nport: 80"

bump_manifest :
    bump_tag manifest (codes "new") ≡ ok (codes "image:\n  tag: new  # set by CI\nport: 80")
unfolding bump_tag nat_eq bytes_eq drop
bump_manifest = refl

bump_nothing : bump_tag (codes "tag: old\n") (codes "new") ≡ err no_tag
unfolding bump_tag nat_eq bytes_eq drop
bump_nothing = refl
