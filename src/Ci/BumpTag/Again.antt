-- ===== src/Ci/BumpTag/Again.antt =====
-- bump_image_tag.py: a bump of what was bumped.
use vidcast.Ci.BumpTag.TagLine.{
  IsTag, bumped, strip-tag_line, indent_of-tag_line, tag_line-tag_line,
}
use vidcast.Base.{
  ℕ, ◌≡◌, refl, ap, ◌∙◌, true, false, inl, inr, List, [], ◌∷◌, Option, none, some, ok, Bytes, codes,
  arith, leb, nat_eq, bytes_eq,
}
use vidcast.Go.Strings.{has_prefix}
use vidcast.Ci.BumpTag.{indent_of, strip, tag_line, Scan, tag, goes_on, inside, opens, bump_lines}
use vidcast.Ci.BumpTag.Change.{kept, tagged, bump_lines-found, inside-cases, tag-deeper}

deeper-tag :
    (line : Bytes) (indent : ℕ)
    → leb (indent_of line) indent ≡ false
    → has_prefix (strip line) (codes "tag:") ≡ true
    → inside (some indent) line ≡ tag
unfolding inside
deeper-tag line indent d n = ground (arith, d, n)

inside-tag_line :
    (a line : Bytes) (indent : Option ℕ)
    → IsTag a
    → inside indent line ≡ tag
    → inside indent (tag_line a line) ≡ tag
unfolding inside bumped has_prefix nat_eq
inside-tag_line a line none h e = ground (arith, e)
inside-tag_line a line (some indent) h e =
    deeper-tag (tag_line a line) indent
      (ap (λ n. leb n indent) (indent_of-tag_line a line) ∙ tag-deeper line indent e)
      (ap (λ x. has_prefix x (codes "tag:")) (strip-tag_line a line h))

bump_tagged :
    (a b line : Bytes) (rest lines : List Bytes) (s : Scan)
    → inside s.image_indent (tag_line a line) ≡ tag
    → inside s.image_indent line ≡ tag
    → tag_line b (tag_line a line) ≡ tag_line b line
    → rest ≡ lines
    → bump_lines b s (tag_line a line ∷ rest) ≡ bump_lines b s (line ∷ lines)
unfolding bump_lines
bump_tagged a b line rest lines s i j both same = ground (arith, i, j, both, same)

bump_kept :
    (b line : Bytes) (rest lines : List Bytes) (s t : Scan) (indent : Option ℕ)
    → inside s.image_indent line ≡ goes_on indent
    → opens (record s { image_indent = indent }) line ≡ ok t
    → bump_lines b t rest ≡ bump_lines b t lines
    → bump_lines b s (line ∷ rest) ≡ bump_lines b s (line ∷ lines)
unfolding bump_lines
bump_kept b line rest lines s t indent i opened again = ground (arith, i, opened, again)

-- A bump forgets the one before: on lines in which the tag was set to another one, without space and
-- `#`, it gives what it gives on the lines as they were, indentation and comment included.
pub bump_lines-bump_lines :
    (a b : Bytes) (lines : List Bytes) (s : Scan) (out : List Bytes)
    → IsTag a
    → bump_lines a s lines ≡ ok out
    → bump_lines b s out ≡ bump_lines b s lines
unfolding bump_lines
bump_lines-bump_lines a b [] s out h e = let empty : out ≡ [] = ground (arith, e) in rw empty refl
bump_lines-bump_lines a b (line ∷ lines) s out h e =
    elim (inside-cases (inside s.image_indent line)) [
      | inl i ↦
          let (unseen, (rest, done, is_out)) = tagged a s line lines out i e in
          let same = bump_lines-found a lines (record s { found = true }) rest refl done in
          let hit = inside-tag_line a line s.image_indent h i in
          let both = tag_line-tag_line a b line h in
          rw is_out (bump_tagged a b line rest lines s hit i both same)
      | inr (indent, i) ↦
          let (t, rest, same, opened, done, is_out) = kept a s indent line lines out i e in
          let again = bump_lines-bump_lines a b lines t rest h done in
          rw is_out (bump_kept b line rest lines s t indent i opened again)
    ]
