-- ===== src/Go/FilePath/Laws.antt =====
-- `path.Join` on plain segments, and what `filepath.Base` returns.
use mathlib.Core.List.{reverse, reverse-cons, reverse-reverse}
use vidcast.Base.{
  ℕ, suc, ◌≡◌, refl, sym, ◌∙◌, ap, ◌≢◌, inl, inr, false, List, [], ◌∷◌, ◌++◌, append_assoc,
  append-nil, none, some, Option-cases, arith, Bytes, codes, nat_eq, bytes_eq, All,
}
use vidcast.Go.Strings.{split, last_index, drop, has_prefix, Lacks, split-append, split-Lacks}
use vidcast.Go.FilePath.{
  slash, dot_dot, walk_segment, walk, join_slash, clean, join_buffer, join, base, after_last_slash,
  or_dot, clean_joined, or_slash, trim_right_slashes,
}

-- A segment that Clean keeps and that stays one segment.
pub record IsPlain (seg : Bytes) : Type 0 where
  pub flat : Lacks slash seg
  pub nonempty : seg ≢ []
  pub not_dot : seg ≢ codes "."
  pub not_dot_dot : seg ≢ dot_dot

-- Clean keeps a plain segment.
pub walk_segment-IsPlain :
    (kept : List Bytes) (seg : Bytes) → IsPlain seg → walk_segment false kept seg ≡ seg ∷ kept
unfolding walk_segment
walk_segment-IsPlain kept seg p = ground arith

walk-IsPlain :
    (kept segs : List Bytes) → All IsPlain segs → walk false kept segs ≡ reverse segs ++ kept
unfolding walk
walk-IsPlain kept [] p = refl
walk-IsPlain kept (seg ∷ segs) p =
    ap (λ k. walk false k segs) (walk_segment-IsPlain kept seg p.0)
    ∙ walk-IsPlain (seg ∷ kept) segs p.1
    ∙ sym
        (ap (λ l. l ++ kept) (reverse-cons seg segs) ∙ append_assoc (reverse segs) (seg ∷ []) kept)

split-join_slash :
    (seg : Bytes) (segs : List Bytes)
    → All IsPlain (seg ∷ segs)
    → split slash (join_slash (seg ∷ segs)) ≡ seg ∷ segs
unfolding join_slash
split-join_slash seg [] p = split-Lacks slash seg p.0.flat
split-join_slash seg (q ∷ segs) p =
    split-append slash seg (join_slash (q ∷ segs)) p.0.flat
    ∙ ap (◌∷◌ seg) (split-join_slash q segs p.1)

not-rooted : (seg rest : Bytes) → IsPlain seg → has_prefix (seg ++ rest) (slash ∷ []) ≡ false
unfolding has_prefix
not-rooted [] rest p = absurd (p.nonempty refl)
not-rooted (c ∷ s) rest p = ground (arith, p.flat)

join_slash-head :
    (seg : Bytes) (segs : List Bytes) → (rest : Bytes) × (join_slash (seg ∷ segs) ≡ seg ++ rest)
unfolding join_slash
join_slash-head seg [] = ([], sym (append-nil seg))
join_slash-head seg (q ∷ segs) = (slash ∷ join_slash (q ∷ segs), refl)

pub or_dot-ne : (s : Bytes) → s ≢ [] → or_dot s ≡ s
or_dot-ne [] n = absurd (n refl)
or_dot-ne (c ∷ s) n = refl

join_slash-ne-nil : (seg : Bytes) (segs : List Bytes) → IsPlain seg → join_slash (seg ∷ segs) ≢ []
unfolding join_slash
join_slash-ne-nil seg [] p = p.nonempty
join_slash-ne-nil [] (q ∷ segs) p = absurd (p.nonempty refl)
join_slash-ne-nil (c ∷ s) (q ∷ segs) p = λ e. cc

-- Clean leaves a relative path of plain segments alone.
clean-join_slash :
    (seg : Bytes) (segs : List Bytes)
    → All IsPlain (seg ∷ segs)
    → clean (join_slash (seg ∷ segs)) ≡ join_slash (seg ∷ segs)
unfolding clean
clean-join_slash seg segs p =
    let (rest, e) = join_slash-head seg segs in
    let relative : has_prefix (join_slash (seg ∷ segs)) (slash ∷ []) ≡ false =
      ap (λ s. has_prefix s (slash ∷ [])) e ∙ not-rooted seg rest p.0 in
    rw
      (
        relative,
        split-join_slash seg segs p,
        walk-IsPlain [] (seg ∷ segs) p,
        append-nil,
        reverse-reverse,
      )
      (or_dot-ne (join_slash (seg ∷ segs)) (join_slash-ne-nil seg segs p.0))

join_slash-append :
    (a q : Bytes) (segs : List Bytes)
    → join_slash ((a ++ slash ∷ q) ∷ segs) ≡ a ++ slash ∷ join_slash (q ∷ segs)
unfolding join_slash
join_slash-append a q [] = refl
join_slash-append a q (r ∷ segs) = append_assoc a (slash ∷ q) (slash ∷ join_slash (r ∷ segs))

join_buffer-join_slash :
    (c : ℕ) (buf : Bytes) (segs : List Bytes)
    → join_buffer (c ∷ buf) segs ≡ join_slash ((c ∷ buf) ∷ segs)
unfolding join_buffer join_slash
join_buffer-join_slash c buf [] = refl
join_buffer-join_slash c buf (q ∷ segs) =
    join_buffer-join_slash c (buf ++ slash ∷ q) segs ∙ join_slash-append (c ∷ buf) q segs

clean_joined-ne : (s : Bytes) → s ≢ [] → clean_joined s ≡ clean s
clean_joined-ne [] n = absurd (n refl)
clean_joined-ne (c ∷ s) n = refl

-- Join puts one slash between plain segments and changes nothing else.
pub join-IsPlain :
    (seg : Bytes) (segs : List Bytes)
    → All IsPlain (seg ∷ segs)
    → join (seg ∷ segs) ≡ join_slash (seg ∷ segs)
unfolding join join_buffer
join-IsPlain [] segs p = absurd (p.0.nonempty refl)
join-IsPlain (c ∷ s) segs p =
    ap clean_joined (join_buffer-join_slash c s segs)
    ∙ clean_joined-ne (join_slash ((c ∷ s) ∷ segs)) (join_slash-ne-nil (c ∷ s) segs p.0)
    ∙ clean-join_slash (c ∷ s) segs p

-- No slash follows the last one.
last_index-none : (c : ℕ) (s : Bytes) → last_index c s ≡ none → Lacks c s
unfolding last_index
last_index-none c [] e = tt
last_index-none c (x ∷ s) e = ground (arith, last_index-none c s)

drop-last_index : (c i : ℕ) (s : Bytes) → last_index c s ≡ some i → Lacks c (drop (suc i) s)
unfolding last_index drop
drop-last_index c i [] e = cc
drop-last_index c i (x ∷ s) e = elim (Option-cases (last_index c s)) [
  | inl n ↦ ground (arith, last_index-none c s n)
  | inr (j, m) ↦ ground (arith, drop-last_index c j s m)
]

pub after_last_slash-Lacks : (s : Bytes) → Lacks slash (after_last_slash s)
unfolding after_last_slash
after_last_slash-Lacks s = elim (Option-cases (last_index slash s)) [
  | inl n ↦ rw (n, after_last_slash) (last_index-none slash s n)
  | inr (i, m) ↦ rw (m, after_last_slash) (drop-last_index slash i s m)
]

or_slash-flat : (s : Bytes) → Lacks slash s → or_slash s ≢ slash ∷ [] → Lacks slash (or_slash s)
or_slash-flat [] h n = absurd (n refl)
or_slash-flat (c ∷ s) h n = h

-- Base returns one segment, but for a path of slashes alone.
pub base-Lacks : (s : Bytes) → base s ≢ slash ∷ [] → Lacks slash (base s)
unfolding base
base-Lacks [] n = omega arith
base-Lacks (c ∷ s) n =
    or_slash-flat (after_last_slash (trim_right_slashes (c ∷ s)))
      (after_last_slash-Lacks (trim_right_slashes (c ∷ s))) n
