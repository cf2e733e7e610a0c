-- ===== src/Ci/BumpTag/Trim.antt =====
-- bump_image_tag.py: `str.strip` at the ends of a text.
use mathlib.Core.List.{reverse, reverse-reverse, reverse-append}
use vidcast.Base.{
  ℕ, ◌≡◌, ◌≢◌, refl, sym, ap, subst, ◌∙◌, true, false, Bool-cases, ◌⊎◌, inl, inr, [], ◌∷◌, ◌++◌,
  Bytes, All,
}
use vidcast.Go.Strings.{trim, trim_left}
use vidcast.Ci.BumpTag.{is_space, strip}

-- The text begins, and ends, with a code point that is no space.
abbrev pub Begins : Bytes → Type 0
Begins s = (c : ℕ) × (r : Bytes) × (s ≡ c ∷ r) × (is_space c ≡ false)

abbrev pub Ends : Bytes → Type 0
Ends s = (c : ℕ) × (r : Bytes) × (s ≡ r ++ c ∷ []) × (is_space c ≡ false)

trim_left-Begins : (s : Bytes) → Begins s → trim_left is_space s ≡ s
unfolding trim_left
trim_left-Begins s (c, r, e, n) = rw (e, n) refl

trim_left-spaces :
    (p s : Bytes)
    → All (λ c. is_space c ≡ true) p
    → trim_left is_space (p ++ s) ≡ trim_left is_space s
unfolding trim_left
trim_left-spaces [] s a = refl
trim_left-spaces (c ∷ p) s (h, a) = rw h (trim_left-spaces p s a)

trim_left-cases : (s : Bytes) → (trim_left is_space s ≡ []) ⊎ Begins (trim_left is_space s)
unfolding trim_left
trim_left-cases [] = inl refl
trim_left-cases (c ∷ s) = elim (Bool-cases (is_space c)) [
  | inl space ↦ rw space (trim_left-cases s)
  | inr solid ↦ rw solid (inr (c, s, refl, solid))
]

Ends-reverse : (s : Bytes) → Ends s → Begins (reverse s)
Ends-reverse s (c, r, e, n) = (c, reverse r, ap reverse e ∙ reverse-append r (c ∷ []), n)

Begins-reverse : (s : Bytes) → Begins s → Ends (reverse s)
Begins-reverse s (c, r, e, n) = (c, reverse r, ap reverse e ∙ reverse-append (c ∷ []) r, n)

-- Spaces around a text are stripped, and nothing of the text.
pub strip-around :
    (p s q : Bytes)
    → All (λ c. is_space c ≡ true) p
    → All (λ c. is_space c ≡ true) (reverse q)
    → Begins s
    → Ends s
    → strip (p ++ (s ++ q)) ≡ s
unfolding strip trim
strip-around p s q hp hq (c, r, e, n) ends =
    let left : trim_left is_space (p ++ (s ++ q)) ≡ s ++ q =
      trim_left-spaces p (s ++ q) hp
      ∙ trim_left-Begins (s ++ q) (c, r ++ q, ap (λ x. x ++ q) e, n) in
    let right : trim_left is_space (reverse (s ++ q)) ≡ reverse s =
      ap (trim_left is_space) (reverse-append s q)
      ∙ trim_left-spaces (reverse q) (reverse s) hq
      ∙ trim_left-Begins (reverse s) (Ends-reverse s ends) in
    ap (λ x. reverse (trim_left is_space (reverse x))) left ∙ ap reverse right ∙ reverse-reverse s

trim_left-snoc :
    (s : Bytes) (c : ℕ)
    → is_space c ≡ false
    → (r : Bytes) × (trim_left is_space (s ++ c ∷ []) ≡ r ++ c ∷ [])
unfolding trim_left
trim_left-snoc [] c n = ([], rw n refl)
trim_left-snoc (x ∷ s) c n = elim (Bool-cases (is_space x)) [
  | inl space ↦ let (r, e) = trim_left-snoc s c n in (r, rw space e)
  | inr solid ↦ (x ∷ s, rw solid refl)
]

not_empty : (r : Bytes) (c : ℕ) → r ++ c ∷ [] ≢ []
not_empty [] c e = cc
not_empty (x ∷ r) c e = cc

-- A text that begins with this code point still does when it is stripped, and then ends as well.
pub strip-Begins :
    (c : ℕ) (s : Bytes) → is_space c ≡ false → (r : Bytes) × (strip (c ∷ s) ≡ c ∷ r) × Ends (c ∷ r)
unfolding strip trim
strip-Begins c s n =
    let left : trim_left is_space (c ∷ s) ≡ c ∷ s = trim_left-Begins (c ∷ s) (c, s, refl, n) in
    let (r, e) = trim_left-snoc (reverse s) c n in
    let back : reverse (c ∷ s) ≡ reverse s ++ c ∷ [] = reverse-append (c ∷ []) s in
    let right : trim_left is_space (reverse (c ∷ s)) ≡ r ++ c ∷ [] =
      ap (trim_left is_space) back ∙ e in
    let whole : reverse (trim_left is_space (reverse (trim_left is_space (c ∷ s))))
        ≡ c ∷ reverse r =
      ap (λ x. reverse (trim_left is_space (reverse x))) left
      ∙ ap reverse right
      ∙ reverse-append r (c ∷ []) in
    let ends : Ends (c ∷ reverse r) = elim (trim_left-cases (reverse (c ∷ s))) [
      | inl none_left ↦ absurd (not_empty r c (sym right ∙ none_left))
      | inr begins ↦
          subst Ends (ap reverse right ∙ reverse-append r (c ∷ []))
            (Begins-reverse (trim_left is_space (reverse (c ∷ s))) begins)
    ] in
    (reverse r, whole, ends)
