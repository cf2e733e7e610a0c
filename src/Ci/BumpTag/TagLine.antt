-- ===== src/Ci/BumpTag/TagLine.antt =====
-- bump_image_tag.py: the line that replaces a tag's, read again.
use vidcast.Base.{
  ℕ, ◌≡◌, ◌≢◌, refl, sym, ap, ap₂, ◌∙◌, Bool, true, false, Bool-cases, Option-cases, ◌⊎◌, inl, inr,
  [], ◌∷◌, ◌++◌, none, some, Bytes, codes, arith, All, ◌==◌, nat_eq, bytes_eq, append_assoc,
  append-nil,
}
use vidcast.Go.Strings.{drop, Lacks}
use vidcast.Ci.BumpTag.{
  is_space, leading, count, indent_of, strip, from_hash, trailing_comment, tag_line,
}
use vidcast.Ci.BumpTag.Trim.{Begins, Ends, strip-around, strip-Begins}

-- A tag: not empty, without spaces and `#`.
abbrev pub IsTag : Bytes → Type 0
IsTag a = (a ≢ []) × All (λ c. is_space c ≡ false) a × Lacks b'#' a

pub from_hash-some : (s c : Bytes) → from_hash s ≡ some c → (r : Bytes) × (c ≡ b'#' ∷ r)
unfolding from_hash
from_hash-some [] c e = absurd (cc)
from_hash-some (x ∷ s) c e = elim (Bool-cases (x == b'#')) [
  | inl hit ↦ (s, ground (arith, hit, e))
  | inr miss ↦ from_hash-some s c (ground (arith, miss, e))
]

pub from_hash-append : (a s : Bytes) → Lacks b'#' a → from_hash (a ++ s) ≡ from_hash s
unfolding from_hash
from_hash-append [] s h = refl
from_hash-append (c ∷ a) s (n, h) = ground (arith, n, from_hash-append a s h)

-- A comment of a line is none, or two spaces and a text that begins with `#` and does not end in
-- space.
pub IsComment : Bytes → Type 0
IsComment t = (t ≡ []) ⊎ ((r : Bytes) × (t ≡ codes "  " ++ b'#' ∷ r) × Ends (b'#' ∷ r))

pub comment_none : (content : Bytes) → from_hash content ≡ none → trailing_comment content ≡ []
comment_none content e = ground (arith, e)

pub comment_some :
    (content c : Bytes)
    → from_hash content ≡ some c
    → trailing_comment content ≡ codes "  " ++ strip c
comment_some content c e = ground (arith, e)

pub trailing_comment-IsComment : (content : Bytes) → IsComment (trailing_comment content)
unfolding IsComment nat_eq
trailing_comment-IsComment content = elim (Option-cases (from_hash content)) [
  | inl bare ↦ inl (comment_none content bare)
  | inr (c, e) ↦
      let (r, is_c) = from_hash-some content c e in
      let (q, stripped, ends) = strip-Begins b'#' r refl in
      inr (
        q,
        comment_some content c e
            ∙ ap (λ x. codes "  " ++ strip x) is_c
            ∙ ap (λ x. codes "  " ++ x) stripped,
        ends,
      )
]

pub tag-Begins : (a t : Bytes) → IsTag a → Begins (a ++ t)
tag-Begins [] t (n, h, l) = absurd (n refl)
tag-Begins (c ∷ a) t (n, (h, _), l) = (c, a ++ t, refl, h)

pub Ends-append : (a s : Bytes) → Ends s → Ends (a ++ s)
Ends-append a s (c, r, e, n) = (c, a ++ r, ap (λ x. a ++ x) e ∙ sym (append_assoc a r (c ∷ [])), n)

pub solid-Ends :
    (c : ℕ) (a : Bytes) → is_space c ≡ false → All (λ x. is_space x ≡ false) a → Ends (c ∷ a)
solid-Ends c [] h k = (c, [], refl, h)
solid-Ends c (d ∷ a) h (i, k) = Ends-append (c ∷ []) (d ∷ a) (solid-Ends d a i k)

pub tag-Ends : (a : Bytes) → IsTag a → Ends a
tag-Ends [] (n, h, l) = absurd (n refl)
tag-Ends (c ∷ a) (n, (h, k), l) = solid-Ends c a h k

pub tag_comment-Ends : (a t : Bytes) → IsTag a → IsComment t → Ends (a ++ t)
unfolding IsComment
tag_comment-Ends a t h (inl e) = rw (e, append-nil a) (tag-Ends a h)
tag_comment-Ends a t h (inr (r, e, ends)) =
    rw e (Ends-append a (codes "  " ++ b'#' ∷ r) (Ends-append (codes "  ") (b'#' ∷ r) ends))

-- The comment is found again behind the tag.
pub trailing_comment-append : (a t : Bytes) → IsTag a → IsComment t → trailing_comment (a ++ t) ≡ t
unfolding IsComment from_hash nat_eq
trailing_comment-append a t (n, h, l) (inl e) =
    let none_left : from_hash (a ++ t) ≡ none = from_hash-append a t l ∙ ap from_hash e in
    comment_none (a ++ t) none_left ∙ sym e
trailing_comment-append a t (n, h, l) (inr (r, e, ends)) =
    let there : from_hash (a ++ t) ≡ some (b'#' ∷ r) = from_hash-append a t l ∙ ap from_hash e in
    let same : strip (b'#' ∷ r) ≡ b'#' ∷ r =
      ap strip (sym (append-nil (b'#' ∷ r)))
      ∙ strip-around [] (b'#' ∷ r) [] tt tt (b'#', r, refl, refl) ends in
    comment_some (a ++ t) (b'#' ∷ r) there ∙ ap (λ x. codes "  " ++ x) same ∙ sym e

pub leading-All : (p : ℕ → Bool) (s : Bytes) → All (λ c. p c ≡ true) (leading p s)
unfolding leading
leading-All p [] = tt
leading-All p (c ∷ s) = elim (Bool-cases (p c)) [
  | inl hit ↦ rw hit ((hit, leading-All p s))
  | inr miss ↦ rw miss tt
]

-- A code point that ends the leading ones.
pub leading-append :
    (p : ℕ → Bool) (a : Bytes) (c : ℕ) (s : Bytes)
    → All (λ x. p x ≡ true) a
    → p c ≡ false
    → leading p (a ++ c ∷ s) ≡ a
unfolding leading
leading-append p [] c s h n = rw n refl
leading-append p (x ∷ a) c s (i, h) n = rw i (ap (λ r. x ∷ r) (leading-append p a c s h n))

-- The leading ones of fewer code points are among those of more.
pub leading-leading :
    (p q : ℕ → Bool) (s : Bytes)
    → ((c : ℕ) → q c ≡ true → p c ≡ true)
    → leading q (leading p s) ≡ leading q s
unfolding leading
leading-leading p q [] h = refl
leading-leading p q (c ∷ s) h = elim (Bool-cases (q c)) [
  | inl hit ↦ rw (h c hit, hit) (ap (λ r. c ∷ r) (leading-leading p q s h))
  | inr miss ↦ elim (Bool-cases (p c)) [
    | inl space ↦ rw (space, miss) refl
    | inr solid ↦ rw (solid, miss) refl
  ]
]

pub content_of : Bytes → Bytes
content_of line = strip (drop 4 (strip line))

-- The parts of a bumped line.
unfoldable pub bumped : Bytes → Bytes → Bytes
bumped a line = codes "tag: " ++ (a ++ trailing_comment (content_of line))

pub tag_line-parts :
    (a line : Bytes) → tag_line a line ≡ leading is_space line ++ (bumped a line ++ codes "\n")
unfolding tag_line bumped content_of
tag_line-parts a line =
    let p = leading is_space line in
    let t = trailing_comment (content_of line) in
    ap (λ x. x ++ codes "\n")
      (append_assoc (p ++ codes "tag: ") a t ∙ append_assoc p (codes "tag: ") (a ++ t))
    ∙ append_assoc p (codes "tag: " ++ (a ++ t)) (codes "\n")

pub strip-tag_line : (a line : Bytes) → IsTag a → strip (tag_line a line) ≡ bumped a line
unfolding bumped nat_eq
strip-tag_line a line h =
    ap strip (tag_line-parts a line)
    ∙ strip-around (leading is_space line) (bumped a line) (codes "\n") (leading-All is_space line)
        (refl, tt) (b't', codes "ag: " ++ (a ++ trailing_comment (content_of line)), refl, refl)
        (Ends-append (codes "tag: ") (a ++ trailing_comment (content_of line)) (
          tag_comment-Ends a (trailing_comment (content_of line)) h
            (trailing_comment-IsComment (content_of line))))

pub leading-tag_line : (a line : Bytes) → leading is_space (tag_line a line) ≡ leading is_space line
unfolding bumped nat_eq
leading-tag_line a line =
    ap (leading is_space) (tag_line-parts a line)
    ∙ leading-append is_space (leading is_space line) b't'
        (codes "ag: " ++ (a ++ trailing_comment (content_of line)) ++ codes "\n")
        (leading-All is_space line) refl

pub indent_of-tag_line : (a line : Bytes) → indent_of (tag_line a line) ≡ indent_of line
indent_of-tag_line a line =
    let spaces : (c : ℕ) → (c == b' ') ≡ true → is_space c ≡ true = λ c h. ground (arith, h) in
    ap count (
      sym (leading-leading is_space (λ c. c == b' ') (tag_line a line) spaces)
      ∙ ap (leading (λ c. c == b' ')) (leading-tag_line a line)
      ∙ leading-leading is_space (λ c. c == b' ') line spaces)

-- The comment of a bumped line is that of the line.
pub comment-tag_line :
    (a line : Bytes)
    → IsTag a
    → trailing_comment (content_of (tag_line a line)) ≡ trailing_comment (content_of line)
unfolding content_of bumped drop nat_eq
comment-tag_line a line h =
    let t = trailing_comment (content_of line) in
    let is_comment = trailing_comment-IsComment (content_of line) in
    let inner : strip (drop 4 (bumped a line)) ≡ a ++ t =
      ap (λ x. strip (b' ' ∷ x)) (sym (append-nil (a ++ t)))
      ∙ strip-around (b' ' ∷ []) (a ++ t) [] (refl, tt) tt (tag-Begins a t h)
          (tag_comment-Ends a t h is_comment) in
    ap (λ x. trailing_comment (strip (drop 4 x))) (strip-tag_line a line h)
    ∙ ap trailing_comment inner
    ∙ trailing_comment-append a t h is_comment

pub tag_line-tag_line :
    (a b line : Bytes) → IsTag a → tag_line b (tag_line a line) ≡ tag_line b line
unfolding bumped tag_line
tag_line-tag_line a b line h =
    tag_line-parts b (tag_line a line)
    ∙ ap₂ (λ p t. p ++ ((codes "tag: " ++ (b ++ t)) ++ codes "\n")) (leading-tag_line a line)
        (comment-tag_line a line h)
    ∙ sym (tag_line-parts b line)
