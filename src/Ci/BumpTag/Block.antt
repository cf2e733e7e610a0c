-- ===== src/Ci/BumpTag/Block.antt =====
-- bump_image_tag.py: what a manifest is whose image has one tag, line by line, and how the loop goes
-- over its lines.
use vidcast.Base.{
  ℕ, ◌<◌, ◌≤◌, ◌≡◌, ◌≢◌, ap, ◌∙◌, true, false, Bool-cases, ◌⊎◌, ◌↔◌, inl, inr, All, List, [], ◌∷◌,
  ◌++◌, Option, none, some, ok, Bytes, codes, arith, leb, ◌==◌, nat_eq, bytes_eq,
}
use vidcast.Go.Strings.{has_prefix}
use vidcast.Ci.BumpTag.{strip, tag_line, indent_of, Scan, tag, goes_on, inside, opens}

abbrev pub IsHeader : Bytes → Type 0
IsHeader line = strip line ≡ codes "image:"

abbrev pub NamesTag : Bytes → Type 0
NamesTag line = has_prefix (strip line) (codes "tag:") ≡ true

-- A line of the block below a header: deeper than it, or blank.
abbrev pub IsDeeper : Bytes → Bytes → Type 0
IsDeeper header line = (strip line ≡ []) ⊎ (indent_of header < indent_of line)

-- A line of the block that is neither a tag's nor a header.
abbrev pub IsOther : Bytes → Bytes → Type 0
IsOther header line =
    IsDeeper header line × (has_prefix (strip line) (codes "tag:") ≡ false) × (¬ IsHeader line)

-- The first line after the block.
abbrev pub IsAfter : Bytes → Bytes → Type 0
IsAfter header line = (strip line ≢ []) × (indent_of line ≤ indent_of header) × (¬ IsHeader line)

-- Below the tag there is no other one in the block, and no other block.
abbrev pub HasNoMore : Bytes → List Bytes → Type 0
HasNoMore header [] = Unit
HasNoMore header (line ∷ lines) =
    (IsOther header line × HasNoMore header lines)
    ⊎ (IsAfter header line × All (λ l. ¬ IsHeader l) lines)

-- The line is the only tag of the only `image:` block.
pub record IsOnlyTag (above : List Bytes) (header : Bytes) (between : List Bytes) (line : Bytes)
    (below : List Bytes) : Type 0 where
  pub no_header : All (λ l. ¬ IsHeader l) above
  pub heads : IsHeader header
  pub within : All (IsOther header) between
  pub deeper : indent_of header < indent_of line
  pub names_tag : NamesTag line
  pub no_more : HasNoMore header below

pub above-IsOnlyTag :
    (l : Bytes) (above : List Bytes) (header : Bytes) (between : List Bytes) (line : Bytes)
    (below : List Bytes)
    → IsOnlyTag (l ∷ above) header between line below
      ↔ ((¬ IsHeader l) × IsOnlyTag above header between line below)
above-IsOnlyTag l above header between line below = (
  λ o. (
    o.no_header.0,
    record {
      no_header = o.no_header.1;
      heads = o.heads;
      within = o.within;
      deeper = o.deeper;
      names_tag = o.names_tag;
      no_more = o.no_more;
    },
  ),
  λ (other, o). record {
    no_header = (other, o.no_header);
    heads = o.heads;
    within = o.within;
    deeper = o.deeper;
    names_tag = o.names_tag;
    no_more = o.no_more;
  },
)

pub between-IsOnlyTag :
    (l : Bytes) (header : Bytes) (between : List Bytes) (line : Bytes) (below : List Bytes)
    → IsOther header l
    → IsOnlyTag [] header between line below
    → IsOnlyTag [] header (l ∷ between) line below
between-IsOnlyTag l header between line below other o = record {
  no_header = tt;
  heads = o.heads;
  within = (other, o.within);
  deeper = o.deeper;
  names_tag = o.names_tag;
  no_more = o.no_more;
}

-- `out` is `lines` with the only tag replaced.
abbrev pub OneLine : Bytes → List Bytes → List Bytes → Type 0
OneLine new_tag lines out =
    (above : List Bytes) × (header : Bytes) × (between : List Bytes) × (line : Bytes)
    × (below : List Bytes) × (lines ≡ above ++ header ∷ (between ++ line ∷ below))
    × (out ≡ above ++ header ∷ (between ++ tag_line new_tag line ∷ below))
    × IsOnlyTag above header between line below

-- A line that the loop goes on from in a block is in it, or is the first after it.
pub inside-goes_on :
    (header line : Bytes) (indent : Option ℕ)
    → inside (some (indent_of header)) line ≡ goes_on indent
    → ¬ IsHeader line
    → ((indent ≡ none) × IsAfter header line)
      ⊎ ((indent ≡ some (indent_of header)) × IsOther header line)
unfolding inside
inside-goes_on header line indent e other = elim (Bool-cases (strip line == [])) [
  | inl blank ↦
      let empty : strip line ≡ [] = ground (arith, blank) in
      inr (
        ground (arith, blank, e),
        (
          inl empty,
          (ap (λ s. has_prefix s (codes "tag:")) empty ∙ unfold has_prefix in ground arith),
          other,
        ),
      )
  | inr text ↦ elim (Bool-cases (leb (indent_of line) (indent_of header))) [
    | inl dedented ↦
        inl (
          ground (arith, text, dedented, e),
          (ground (arith, text), ground (arith, dedented), other),
        )
    | inr deep ↦ elim (Bool-cases (has_prefix (strip line) (codes "tag:"))) [
      | inl hit ↦ absurd (ground (arith, text, deep, hit, e))
      | inr miss ↦
          inr (ground (arith, text, deep, miss, e), (inr (ground (arith, deep)), miss, other))
    ]
  ]
]

pub opens-cases :
    (s t : Scan) (line : Bytes)
    → s.image_indent ≡ none
    → s.seen ≡ false
    → opens s line ≡ ok t
    → (IsHeader line × (t.seen ≡ true) × (t.image_indent ≡ some (indent_of line)))
      ⊎ ((¬ IsHeader line) × (t.seen ≡ false) × (t.image_indent ≡ none))
unfolding opens
opens-cases s t line i b e = elim (Bool-cases (strip line == codes "image:")) [
  | inl opening ↦
      inl (ground (arith, opening), ground (arith, opening, b, e), ground (arith, opening, b, e))
  | inr other ↦
      inr (ground (arith, other), ground (arith, other, b, e), ground (arith, other, i, e))
]

-- Once a block has been seen, a line that is let through is no header.
pub opens-IsHeader :
    (s t : Scan) (line : Bytes) → s.seen ≡ true → opens s line ≡ ok t → ¬ IsHeader line
unfolding opens
opens-IsHeader s t line b e h = ground (arith, b, e, h)

pub inside-other :
    (header line : Bytes)
    → IsOther header line
    → inside (some (indent_of header)) line ≡ goes_on (some (indent_of header))
unfolding inside
inside-other header line (inl blank, miss, other) = ground (arith, blank, miss)
inside-other header line (inr deeper, miss, other) = ground (arith, deeper, miss)

pub inside-after :
    (header line : Bytes)
    → IsAfter header line
    → inside (some (indent_of header)) line ≡ goes_on none
unfolding inside
inside-after header line (text, shallow, other) = ground (arith, text, shallow)

pub inside-deeper :
    (header line : Bytes)
    → indent_of header < indent_of line
    → NamesTag line
    → inside (some (indent_of header)) line ≡ tag
unfolding inside
inside-deeper header line deeper hit = ground (arith, deeper, hit)

pub opens-other : (s : Scan) (line : Bytes) → ¬ IsHeader line → opens s line ≡ ok s
unfolding opens
opens-other s line other = elim (Bool-cases (strip line == codes "image:")) [
  | inl opening ↦ absurd (other (ground (arith, opening)))
  | inr unequal ↦ ground (arith, unequal)
]

pub opens-header :
    (s : Scan) (line : Bytes)
    → s.seen ≡ false
    → IsHeader line
    → opens s line ≡ ok (record s { seen = true; image_indent = some (indent_of line) })
unfolding opens
opens-header s line b h = ground (arith, b, h)
