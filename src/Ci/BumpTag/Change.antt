-- ===== src/Ci/BumpTag/Change.antt =====
-- bump_image_tag.py: the rounds of the loop, line by line.
use vidcast.Base.{
  Bool-cases, ℕ, ◌≡◌, refl, ap, ◌∙◌, true, false, not, ◌&&◌, Result-cases, ◌⊎◌, inl, inr, List, [],
  ◌∷◌, Option, none, some, ok, Bytes, codes, arith, leb, ◌==◌, nat_eq, bytes_eq, if_cases,
}
use vidcast.Go.Strings.{has_prefix}
use vidcast.Ci.BumpTag.{
  push, is_break, starts_lf, split_lines, join_lines, strip, tag_line, indent_of, Scan, Inside, tag,
  goes_on, inside, opens, bump_lines,
}

join_lines-push : (c : ℕ) (ls : List Bytes) → join_lines (push c ls) ≡ c ∷ join_lines ls
unfolding join_lines
join_lines-push c [] = refl
join_lines-push c (l ∷ ls) = refl

-- Splitting loses nothing.
pub join_lines-split_lines : (s : Bytes) → join_lines (split_lines s) ≡ s
unfolding join_lines split_lines
join_lines-split_lines [] = refl
join_lines-split_lines (c ∷ s) =
    let rest = join_lines-split_lines s in
    if_cases (λ ls. join_lines ls ≡ c ∷ s) (is_break c && not (c == 13 && starts_lf s))
      ((c ∷ []) ∷ split_lines s) (push c (split_lines s)) (ap (λ r. c ∷ r) rest)
      (join_lines-push c (split_lines s) ∙ ap (λ r. c ∷ r) rest)

opens-found : (s t : Scan) (line : Bytes) → opens s line ≡ ok t → t.found ≡ s.found
unfolding opens
opens-found s t line e = ground (arith, e)

-- Once a block has been seen, no line opens another.
pub opens-seen :
    (s t : Scan) (line : Bytes)
    → s.seen ≡ true
    → opens s line ≡ ok t
    → (t.seen ≡ true) × (t.image_indent ≡ s.image_indent)
unfolding opens
opens-seen s t line b e = (ground (arith, b, e), ground (arith, b, e))

pub inside-tag :
    (indent : Option ℕ) (line : Bytes)
    → inside indent line ≡ tag
    → has_prefix (strip line) (codes "tag:") ≡ true
unfolding inside
inside-tag none line e = ground (arith, e)
inside-tag (some indent) line e = ground (arith, e)

pub inside-cases : (i : Inside) → (i ≡ tag) ⊎ ((indent : Option ℕ) × (i ≡ goes_on indent))
inside-cases tag = inl refl
inside-cases (goes_on indent) = inr (indent, refl)

-- A line that is not a tag's is kept.
pub kept :
    (new_tag : Bytes) (s : Scan) (indent : Option ℕ) (line : Bytes) (lines out : List Bytes)
    → inside s.image_indent line ≡ goes_on indent
    → bump_lines new_tag s (line ∷ lines) ≡ ok out
    → (t : Scan) × (rest : List Bytes) × (t.found ≡ s.found)
      × (opens (record s { image_indent = indent }) line ≡ ok t)
      × (bump_lines new_tag t lines ≡ ok rest)
      × (out ≡ line ∷ rest)
unfolding bump_lines
kept new_tag s indent line lines out i e =
    elim (Result-cases (opens (record s { image_indent = indent }) line)) [
      | inl (x, bad) ↦ absurd (ground (arith, i, bad, e))
      | inr (t, opened) ↦ elim (Result-cases (bump_lines new_tag t lines)) [
        | inl (x, bad) ↦ absurd (ground (arith, i, opened, bad, e))
        | inr (rest, done) ↦ (
          t,
          rest,
          opens-found (record s { image_indent = indent }) t line opened,
          opened,
          done,
          ground (arith, i, opened, done, e),
        )
      ]
    ]

pub tagged :
    (new_tag : Bytes) (s : Scan) (line : Bytes) (lines out : List Bytes)
    → inside s.image_indent line ≡ tag
    → bump_lines new_tag s (line ∷ lines) ≡ ok out
    → (s.found ≡ false)
      × ((rest : List Bytes) × (bump_lines new_tag (record s { found = true }) lines ≡ ok rest)
          × (out ≡ tag_line new_tag line ∷ rest))
unfolding bump_lines
tagged new_tag s line lines out i e =
    elim (Result-cases (bump_lines new_tag (record s { found = true }) lines)) [
      | inl (x, bad) ↦ absurd (ground (arith, i, bad, e))
      | inr (rest, done) ↦ (ground (arith, i, done, e), (rest, done, ground (arith, i, done, e)))
    ]

-- After the tag nothing changes.
pub bump_lines-found :
    (new_tag : Bytes) (lines : List Bytes) (s : Scan) (out : List Bytes)
    → s.found ≡ true
    → bump_lines new_tag s lines ≡ ok out
    → out ≡ lines
bump_lines-found new_tag [] s out f e = unfold bump_lines in ground (arith, f, e)
bump_lines-found new_tag (line ∷ lines) s out f e =
    elim (inside-cases (inside s.image_indent line)) [
      | inl i ↦
          let (unseen, _) = tagged new_tag s line lines out i e in
          absurd (ground (arith, f, unseen))
      | inr (indent, i) ↦
          let (t, rest, same, _, done, is_out) = kept new_tag s indent line lines out i e in
          is_out ∙ ap (λ r. line ∷ r) (bump_lines-found new_tag lines t rest (same ∙ f) done)
    ]

-- A tag stands deeper than its block, and a line that does is looked at.
pub tag-deeper :
    (line : Bytes) (indent : ℕ)
    → inside (some indent) line ≡ tag
    → leb (indent_of line) indent ≡ false
unfolding inside has_prefix
tag-deeper line indent e =
    let named = inside-tag (some indent) line e in
    elim (Bool-cases (leb (indent_of line) indent)) [
      | inr deeper ↦ deeper
      | inl dedented ↦ elim (Bool-cases (strip line == [])) [
        | inr text ↦ absurd (ground (arith, e, dedented, text))
        | inl blank ↦
            let empty : strip line ≡ [] = ground (arith, blank) in
            absurd (ground (arith, named, empty))
      ]
    ]
