-- ===== src/Ci/BumpTag/Complete.antt =====
-- bump_image_tag.py: a manifest with one tag is bumped.
use vidcast.Base.{
  ℕ, ◌<◌, ◌≡◌, refl, sym, ap, ◌∙◌, true, false, inl, inr, All, List, [], ◌∷◌, ◌++◌, Option, none,
  some, ok, Bytes, arith, Bool, nat_eq, bytes_eq,
}
use vidcast.Ci.BumpTag.{tag_line, indent_of, Scan, start, tag, goes_on, inside, opens, bump_lines}
use vidcast.Ci.BumpTag.Block.{
  IsHeader, NamesTag, IsOther, HasNoMore, IsOnlyTag, OneLine, inside-other, inside-after,
  inside-deeper, opens-other, opens-header, above-IsOnlyTag,
}

bump_lines-goes_on :
    (new_tag : Bytes) (s t : Scan) (indent : Option ℕ) (line : Bytes) (lines out : List Bytes)
    → inside s.image_indent line ≡ goes_on indent
    → opens (record s { image_indent = indent }) line ≡ ok t
    → bump_lines new_tag t lines ≡ ok out
    → bump_lines new_tag s (line ∷ lines) ≡ ok (line ∷ out)
unfolding bump_lines
bump_lines-goes_on new_tag s t indent line lines out i o e = ground (arith, i, o, e)

bump_lines-tag :
    (new_tag : Bytes) (s : Scan) (line : Bytes) (lines out : List Bytes)
    → inside s.image_indent line ≡ tag
    → s.found ≡ false
    → bump_lines new_tag (record s { found = true }) lines ≡ ok out
    → bump_lines new_tag s (line ∷ lines) ≡ ok (tag_line new_tag line ∷ out)
unfolding bump_lines
bump_lines-tag new_tag s line lines out i f e = ground (arith, i, f, e)

-- In the block of a header, or in none, and whether the tag has been found.
abbrev within : Bytes → Bool → Scan
within header found = record { image_indent = some (indent_of header); seen = true; found = found }

abbrev closed : Scan
closed = record { image_indent = none; seen = true; found = true }

bump_lines-IsOther :
    (header new_tag : Bytes) (found : Bool) (line : Bytes) (lines out : List Bytes)
    → IsOther header line
    → bump_lines new_tag (within header found) lines ≡ ok out
    → bump_lines new_tag (within header found) (line ∷ lines) ≡ ok (line ∷ out)
bump_lines-IsOther header new_tag found line lines out other e =
    bump_lines-goes_on new_tag (within header found) (within header found) (some (indent_of header))
      line lines out (inside-other header line other)
      (opens-other (within header found) line other.2) e

closed-kept :
    (new_tag : Bytes) (lines : List Bytes)
    → All (λ l. ¬ IsHeader l) lines
    → bump_lines new_tag closed lines ≡ ok lines
closed-kept new_tag [] others = unfold bump_lines in refl
closed-kept new_tag (line ∷ lines) (other, others) =
    bump_lines-goes_on new_tag closed closed none line lines lines (unfold inside in refl)
      (opens-other closed line other) (closed-kept new_tag lines others)

found-kept :
    (header new_tag : Bytes) (lines : List Bytes)
    → HasNoMore header lines
    → bump_lines new_tag (within header true) lines ≡ ok lines
found-kept header new_tag [] h = unfold bump_lines in refl
found-kept header new_tag (line ∷ lines) (inl (other, h)) =
    bump_lines-IsOther header new_tag true line lines lines other
      (found-kept header new_tag lines h)
found-kept header new_tag (line ∷ lines) (inr (after, others)) =
    bump_lines-goes_on new_tag (within header true) closed none line lines lines
      (inside-after header line after) (opens-other closed line after.2)
      (closed-kept new_tag lines others)

block-bumped :
    (header new_tag : Bytes) (between : List Bytes) (line : Bytes) (below : List Bytes)
    → All (IsOther header) between
    → indent_of header < indent_of line
    → NamesTag line
    → HasNoMore header below
    → bump_lines new_tag (within header false) (between ++ line ∷ below)
      ≡ ok (between ++ tag_line new_tag line ∷ below)
block-bumped header new_tag [] line below a deeper hit more =
    bump_lines-tag new_tag (within header false) line below below
      (inside-deeper header line deeper hit) refl (found-kept header new_tag below more)
block-bumped header new_tag (l ∷ between) line below (other, a) deeper hit more =
    bump_lines-IsOther header new_tag false l (between ++ line ∷ below)
      (between ++ tag_line new_tag line ∷ below) other
      (block-bumped header new_tag between line below a deeper hit more)

lines-bumped :
    (new_tag : Bytes) (above : List Bytes) (header : Bytes) (between : List Bytes) (line : Bytes)
    (below : List Bytes)
    → IsOnlyTag above header between line below
    → bump_lines new_tag start (above ++ header ∷ (between ++ line ∷ below))
      ≡ ok (above ++ header ∷ (between ++ tag_line new_tag line ∷ below))
lines-bumped new_tag [] header between line below o =
    bump_lines-goes_on new_tag start (within header false) none header (between ++ line ∷ below)
      (between ++ tag_line new_tag line ∷ below) (unfold inside in refl)
      (opens-header start header refl o.heads)
      (block-bumped header new_tag between line below o.within o.deeper o.names_tag o.no_more)
lines-bumped new_tag (l ∷ above) header between line below o =
    bump_lines-goes_on new_tag start start none l (above ++ header ∷ (between ++ line ∷ below))
      (above ++ header ∷ (between ++ tag_line new_tag line ∷ below)) (unfold inside in refl)
      (opens-other start l ((above-IsOnlyTag l above header between line below).0 o).0)
      (lines-bumped new_tag above header between line below
        ((above-IsOnlyTag l above header between line below).0 o).1)

pub OneLine-bump_lines :
    (new_tag : Bytes) (lines out : List Bytes)
    → OneLine new_tag lines out
    → bump_lines new_tag start lines ≡ ok out
OneLine-bump_lines new_tag lines out (above, header, between, line, below, split, joined, only) =
    ap (bump_lines new_tag start) split
    ∙ lines-bumped new_tag above header between line below only
    ∙ ap ok (sym joined)
