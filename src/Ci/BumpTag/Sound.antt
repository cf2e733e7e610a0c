-- ===== src/Ci/BumpTag/Sound.antt =====
-- bump_image_tag.py: a bump that succeeds has found the only tag.
use vidcast.Base.{
  ℕ, ◌≡◌, refl, sym, ap, ◌∙◌, true, false, ◌⊎◌, inl, inr, All, List, [], ◌∷◌, ◌++◌, Option, none,
  some, ok, Bytes, arith, nat_eq, bytes_eq,
}
use vidcast.Ci.BumpTag.{tag_line, indent_of, Scan, goes_on, inside, bump_lines}
use vidcast.Ci.BumpTag.Change.{
  kept, tagged, bump_lines-found, inside-cases, inside-tag, tag-deeper, opens-seen,
}
use vidcast.Ci.BumpTag.Block.{
  IsHeader, IsOther, IsAfter, HasNoMore, IsOnlyTag, OneLine, inside-goes_on, opens-cases,
  opens-IsHeader, above-IsOnlyTag, between-IsOnlyTag,
}

-- After the block no line is a header.
closed-All :
    (new_tag : Bytes) (lines : List Bytes) (s : Scan) (out : List Bytes)
    → s.image_indent ≡ none
    → s.seen ≡ true
    → bump_lines new_tag s lines ≡ ok out
    → (s.found ≡ true) × All (λ l. ¬ IsHeader l) lines
closed-All new_tag [] s out i b e = unfold bump_lines in (ground (arith, e), tt)
closed-All new_tag (line ∷ lines) s out i b e =
    let on : inside s.image_indent line ≡ goes_on none = unfold inside in ground (arith, i) in
    let (t, rest, same, opened, done, _) = kept new_tag s none line lines out on e in
    let (still, closed) = opens-seen (record s { image_indent = none }) t line b opened in
    let (found, others) = closed-All new_tag lines t rest closed still done in
    (sym same ∙ found, (opens-IsHeader (record s { image_indent = none }) t line b opened, others))

-- A line of the block that is no tag.
in_block :
    (header new_tag line : Bytes) (lines : List Bytes) (s : Scan) (out : List Bytes)
    (indent : Option ℕ)
    → s.image_indent ≡ some (indent_of header)
    → s.seen ≡ true
    → inside s.image_indent line ≡ goes_on indent
    → bump_lines new_tag s (line ∷ lines) ≡ ok out
    → (t : Scan) × (rest : List Bytes) × (t.found ≡ s.found)
      × (t.seen ≡ true)
      × (bump_lines new_tag t lines ≡ ok rest)
      × (out ≡ line ∷ rest)
      × (((t.image_indent ≡ none) × IsAfter header line)
          ⊎ ((t.image_indent ≡ some (indent_of header)) × IsOther header line))
in_block header new_tag line lines s out indent i b on e =
    let (t, rest, same, opened, done, is_out) = kept new_tag s indent line lines out on e in
    let (seen, kept_indent) = opens-seen (record s { image_indent = indent }) t line b opened in
    let other = opens-IsHeader (record s { image_indent = indent }) t line b opened in
    let position = inside-goes_on header line indent (ap (λ o. inside o line) (sym i) ∙ on) other in
    (
      t,
      rest,
      same,
      seen,
      done,
      is_out,
      elim position [
        | inl (left, after) ↦ inl (kept_indent ∙ left, after)
        | inr (stays, deeper) ↦ inr (kept_indent ∙ stays, deeper)
      ],
    )

-- After the tag.
found-HasNoMore :
    (header new_tag : Bytes) (lines : List Bytes) (s : Scan) (out : List Bytes)
    → s.image_indent ≡ some (indent_of header)
    → s.seen ≡ true
    → s.found ≡ true
    → bump_lines new_tag s lines ≡ ok out
    → HasNoMore header lines
found-HasNoMore header new_tag [] s out i b f e = tt
found-HasNoMore header new_tag (line ∷ lines) s out i b f e =
    elim (inside-cases (inside s.image_indent line)) [
      | inl hit ↦
          let (unseen, _) = tagged new_tag s line lines out hit e in
          absurd (ground (arith, f, unseen))
      | inr (indent, on) ↦
          let (t, rest, same, seen, done, _, position) =
            in_block header new_tag line lines s out indent i b on e in
          elim position [
            | inl (left, after) ↦ inr (after, (closed-All new_tag lines t rest left seen done).1)
            | inr (stays, other) ↦
                inl (other, found-HasNoMore header new_tag lines t rest stays seen (same ∙ f) done)
          ]
    ]

abbrev InBlock : Bytes → Bytes → List Bytes → List Bytes → Type 0
InBlock header new_tag lines out =
    (between : List Bytes) × (line : Bytes) × (below : List Bytes) × (lines
      ≡ between ++ line ∷ below)
    × (out ≡ between ++ tag_line new_tag line ∷ below)
    × IsOnlyTag [] header between line below

-- The loop in a block whose tag is still to come.
bump_lines-InBlock :
    (header new_tag : Bytes) (lines : List Bytes) (s : Scan) (out : List Bytes)
    → IsHeader header
    → s.image_indent ≡ some (indent_of header)
    → s.seen ≡ true
    → s.found ≡ false
    → bump_lines new_tag s lines ≡ ok out
    → InBlock header new_tag lines out
bump_lines-InBlock header new_tag [] s out h i b f e =
    unfold bump_lines in absurd (ground (arith, f, e))
bump_lines-InBlock header new_tag (line ∷ lines) s out h i b f e =
    elim (inside-cases (inside s.image_indent line)) [
      | inl hit ↦
          let (_, (rest, done, is_out)) = tagged new_tag s line lines out hit e in
          let same = bump_lines-found new_tag lines (record s { found = true }) rest refl done in
          let here = ap (λ o. inside o line) (sym i) ∙ hit in
          (
            [],
            line,
            lines,
            refl,
            is_out ∙ ap (λ r. tag_line new_tag line ∷ r) same,
            record {
              no_header = tt;
              heads = h;
              within = tt;
              deeper = ground (arith, tag-deeper line (indent_of header) here);
              names_tag = inside-tag s.image_indent line hit;
              no_more =
                  found-HasNoMore header new_tag lines (record s { found = true }) rest i b refl
                    done;
            },
          )
      | inr (indent, on) ↦
          let (t, rest, same, seen, done, is_out, position) =
            in_block header new_tag line lines s out indent i b on e in
          elim position [
            | inl (left, _) ↦
                let (found, _) = closed-All new_tag lines t rest left seen done in
                absurd (ground (arith, f, same, found))
            | inr (stays, other) ↦
                let (between, hit, below, split, joined, only) =
                  bump_lines-InBlock header new_tag lines t rest h stays seen (same ∙ f) done in
                (
                  line ∷ between,
                  hit,
                  below,
                  ap (λ r. line ∷ r) split,
                  is_out ∙ ap (λ r. line ∷ r) joined,
                  between-IsOnlyTag line header between hit below other only,
                )
          ]
    ]

pub bump_lines-OneLine :
    (new_tag : Bytes) (lines : List Bytes) (s : Scan) (out : List Bytes)
    → s.image_indent ≡ none
    → s.seen ≡ false
    → s.found ≡ false
    → bump_lines new_tag s lines ≡ ok out
    → OneLine new_tag lines out
bump_lines-OneLine new_tag [] s out i b f e = unfold bump_lines in absurd (ground (arith, f, e))
bump_lines-OneLine new_tag (line ∷ lines) s out i b f e =
    let on : inside s.image_indent line ≡ goes_on none = unfold inside in ground (arith, i) in
    let (t, rest, same, opened, done, is_out) = kept new_tag s none line lines out on e in
    elim (opens-cases (record s { image_indent = none }) t line refl b opened) [
      | inl (heads, seen, is_indent) ↦
          let (between, hit, below, split, joined, only) =
            bump_lines-InBlock line new_tag lines t rest heads is_indent seen (same ∙ f) done in
          (
            [],
            line,
            between,
            hit,
            below,
            ap (λ r. line ∷ r) split,
            is_out ∙ ap (λ r. line ∷ r) joined,
            only,
          )
      | inr (other, unseen, outside) ↦
          let (above, header, between, hit, below, split, joined, only) =
            bump_lines-OneLine new_tag lines t rest outside unseen (same ∙ f) done in
          (
            line ∷ above,
            header,
            between,
            hit,
            below,
            ap (λ r. line ∷ r) split,
            is_out ∙ ap (λ r. line ∷ r) joined,
            (above-IsOnlyTag line above header between hit below).1 (other, only),
          )
    ]
