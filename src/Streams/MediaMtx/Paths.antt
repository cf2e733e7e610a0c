-- ===== src/Streams/MediaMtx/Paths.antt =====
-- mediamtx_handler.go: what `lastPathSegment` makes of a MediaMTX path.
use mathlib.Core.List.{reverse, reverse-cons, reverse-reverse, reverse-append}
use vidcast.Base.{
  ℕ, suc, ◌≡◌, refl, sym, ◌∙◌, ap, ◌≢◌, ◌⊎◌, inl, inr, Bool, [], ◌∷◌, ◌++◌, append_assoc, none,
  some, arith, Bytes, ◌==◌, nat_eq, bytes_eq, All-append, length, Bool-cases, subst,
}
use vidcast.Go.FilePath.{slash, after_last_slash}
use vidcast.Go.FilePath.Laws.{after_last_slash-Lacks}
use vidcast.Go.Strings.{trim_left, trim, last_index, drop, Lacks}
use vidcast.Streams.MediaMtx.{last_path_segment}

abbrev is_slash : ℕ → Bool
is_slash c = c == b'/'

reverse-Lacks : (s : Bytes) → Lacks slash s → Lacks slash (reverse s)
reverse-Lacks [] h = tt
reverse-Lacks (c ∷ s) h =
    subst (Lacks slash) (sym (reverse-cons c s))
      (All-append (λ x. x ≢ slash) (reverse s) (c ∷ []) (reverse-Lacks s h.1) (h.0, tt))

reverse-ne-nil : (s : Bytes) → s ≢ [] → reverse s ≢ []
reverse-ne-nil s n e = n (sym (reverse-reverse s) ∙ ap reverse e)

-- A text that does not begin with a slash stays.
trim_left-append :
    (s rest : Bytes) → s ≢ [] → Lacks slash s → trim_left is_slash (s ++ rest) ≡ s ++ rest
unfolding trim_left
trim_left-append [] rest n h = absurd (n refl)
trim_left-append (c ∷ s) rest n h = ground arith

trim_left-flat : (s : Bytes) → Lacks slash s → trim_left is_slash s ≡ s
unfolding trim_left
trim_left-flat [] h = refl
trim_left-flat (c ∷ s) h = ground arith

trim_left-segment :
    (p seg : Bytes)
    → Lacks slash seg
    → (trim_left is_slash (p ++ slash ∷ seg) ≡ seg)
      ⊎ ((q : Bytes) × (trim_left is_slash (p ++ slash ∷ seg) ≡ q ++ slash ∷ seg))
unfolding trim_left
trim_left-segment [] seg h = inl (ground (arith, trim_left-flat seg h))
trim_left-segment (c ∷ p) seg h = elim (Bool-cases (is_slash c)) [
  | inl e ↦ elim (trim_left-segment p seg h) [
    | inl done ↦ inl (ground (arith, e, done))
    | inr (q, more) ↦ inr (q, ground (arith, e, more))
  ]
  | inr n ↦ inr (c ∷ p, ground (arith, n))
]

-- The end of a text that ends in a segment is not trimmed.
untrimmed_end :
    (q seg : Bytes)
    → seg ≢ []
    → Lacks slash seg
    → reverse (trim_left is_slash (reverse (q ++ seg))) ≡ q ++ seg
untrimmed_end q seg n h = rw (
  reverse-append q seg,
  trim_left-append (reverse seg) (reverse q) (reverse-ne-nil seg n) (reverse-Lacks seg h),
  reverse-append (reverse seg) (reverse q),
  reverse-reverse q,
  reverse-reverse seg,
)

last_index-Lacks : (s : Bytes) → Lacks slash s → last_index slash s ≡ none
unfolding last_index
last_index-Lacks [] h = refl
last_index-Lacks (c ∷ s) h = ground (arith, last_index-Lacks s h.1)

last_index-segment :
    (q seg : Bytes) → Lacks slash seg → last_index slash (q ++ slash ∷ seg) ≡ some (length q)
unfolding last_index
last_index-segment [] seg h = ground (arith, last_index-Lacks seg h)
last_index-segment (c ∷ q) seg h = ground (arith, last_index-segment q seg h)

drop-segment : (q seg : Bytes) → drop (suc (length q)) (q ++ slash ∷ seg) ≡ seg
unfolding drop
drop-segment [] seg = refl
drop-segment (c ∷ q) seg = drop-segment q seg

trim-segment :
    (p seg : Bytes)
    → seg ≢ []
    → Lacks slash seg
    → (trim is_slash (p ++ slash ∷ seg) ≡ seg)
      ⊎ ((q : Bytes) × (trim is_slash (p ++ slash ∷ seg) ≡ q ++ slash ∷ seg))
unfolding trim
trim-segment p seg n h = elim (trim_left-segment p seg h) [
  | inl e ↦ inl (ap (λ t. reverse (trim_left is_slash (reverse t))) e ∙ untrimmed_end [] seg n h)
  | inr (q, e) ↦ inr (
    q,
    ap (λ t. reverse (trim_left is_slash (reverse t))) (e ∙ sym (append_assoc q (slash ∷ []) seg))
        ∙ untrimmed_end (q ++ slash ∷ []) seg n h
        ∙ append_assoc q (slash ∷ []) seg,
  )
]

after_last_slash-segment :
    (q seg : Bytes) → Lacks slash seg → after_last_slash (q ++ slash ∷ seg) ≡ seg
unfolding after_last_slash
after_last_slash-segment q seg h = ground (arith, last_index-segment q seg h, drop-segment q seg)

after_last_slash-flat : (s : Bytes) → Lacks slash s → after_last_slash s ≡ s
unfolding after_last_slash
after_last_slash-flat s h = ground (arith, last_index-Lacks s h)

last_path_segment-trim :
    (path : Bytes) → last_path_segment path ≡ after_last_slash (trim is_slash path)
unfolding last_path_segment after_last_slash
last_path_segment-trim path = ground arith

-- The last segment of a path that ends in a segment is that segment, wherever the path begins.
pub last_path_segment_lem :
    (p seg : Bytes) → seg ≢ [] → Lacks slash seg → last_path_segment (p ++ slash ∷ seg) ≡ seg
last_path_segment_lem p seg n h = elim (trim-segment p seg n h) [
  | inl e ↦
      last_path_segment-trim (p ++ slash ∷ seg)
      ∙ ap after_last_slash e
      ∙ after_last_slash-flat seg h
  | inr (q, e) ↦
      last_path_segment-trim (p ++ slash ∷ seg)
      ∙ ap after_last_slash e
      ∙ after_last_slash-segment q seg h
]

-- A path that is one segment is its own last segment.
pub last_path_segment-flat :
    (seg : Bytes) → seg ≢ [] → Lacks slash seg → last_path_segment seg ≡ seg
unfolding trim
last_path_segment-flat seg n h =
    last_path_segment-trim seg
    ∙ ap after_last_slash (
        ap (λ t. reverse (trim_left is_slash (reverse t))) (trim_left-flat seg h)
        ∙ untrimmed_end [] seg n h)
    ∙ after_last_slash-flat seg h

-- The last segment of any path holds no slash.
pub last_path_segment-Lacks : (path : Bytes) → Lacks slash (last_path_segment path)
last_path_segment-Lacks path =
    subst (Lacks slash) (sym (last_path_segment-trim path))
      (after_last_slash-Lacks (trim is_slash path))
