-- ===== src/Ci/BumpTag/Run.antt =====
-- bump_image_tag.py: what a run does to the files.
use vidcast.Base.{
  ℕ, ◌≡◌, refl, Result-cases, Option-cases, ◌⊎◌, inl, inr, List, [], ◌∷◌, none, some, take, ok, err,
  Bytes, arith, subst, Result, nat_eq, bytes_eq,
}
use vidcast.Ci.BumpTag.{
  split_lines, join_lines, start, bump_lines, bump_tag, universal, Files, write_file, Writing,
  completes, unwritable, breaks_off, Raised, BumpError, not_read, not_written, value_error,
  write_text, rewrite, main,
}
use vidcast.Ci.BumpTag.Change.{join_lines-split_lines}
use vidcast.Ci.BumpTag.Block.{OneLine}
use vidcast.Ci.BumpTag.Sound.{bump_lines-OneLine}
use vidcast.Ci.BumpTag.Complete.{OneLine-bump_lines}

-- The lines of a file, as the script reads it.
abbrev pub lines_of : Bytes → List Bytes
lines_of text = split_lines (universal text)

bump_tag-cases :
    (text new_tag : Bytes)
    → ((e : BumpError) × (bump_tag text new_tag ≡ err e)
        × ((out : List Bytes) → ¬ OneLine new_tag (split_lines text) out))
      ⊎ ((out : List Bytes) × (bump_tag text new_tag ≡ ok (join_lines out))
          × OneLine new_tag (split_lines text) out)
unfolding bump_tag
bump_tag-cases text new_tag = elim (Result-cases (bump_lines new_tag start (split_lines text))) [
  | inl (e, bad) ↦ inl (
    e,
    ground (arith, bad),
    λ out one.
        let good = OneLine-bump_lines new_tag (split_lines text) out one in
        ground (arith, bad, good),
  )
  | inr (out, done) ↦ inr (
    out,
    ground (arith, done),
    bump_lines-OneLine new_tag (split_lines text) start out refl refl refl done,
  )
]

-- What a run leaves when the bump succeeds.
abbrev pub Wrote : Writing → Files → Bytes → Bytes → Files × Result Raised ℕ → Type 0
Wrote completes files path text (after, code) = (after ≡ write_file files path text) × (code ≡ ok 0)
Wrote unwritable files path text (after, code) = (after ≡ files) × (code ≡ err not_written)
Wrote (breaks_off n) files path text (after, code) =
    (after ≡ write_file files path (take n text)) × (code ≡ err not_written)

write_text-Wrote :
    (writing : Writing) (files : Files) (path text : Bytes)
    → Wrote writing files path text (write_text writing files path text)
unfolding write_text
write_text-Wrote completes files path text = (refl, refl)
write_text-Wrote unwritable files path text = (refl, refl)
write_text-Wrote (breaks_off n) files path text = (refl, refl)

-- A run of the script with its two arguments, on every branch. The file is read with `\r\n` and `\r`
-- turned into `\n`, and splitting it into lines loses nothing. When it cannot be read, or its
-- lines do not have exactly one `image:` block with exactly one tag in it, no file changes and the
-- run fails. Else, and only then, the file is rewritten, and of its lines only this tag's changes,
-- into the one with the new tag; when it cannot be opened for writing no file changes, and when the
-- writing breaks off the file keeps the beginning of that text: both fail. No other file ever
-- changes.
pub main-one :
    (writing : Writing) (files : Files) (script path new_tag : Bytes)
    → let run = main writing files (script ∷ path ∷ new_tag ∷ []) in
      ((files path ≡ none) × (run ≡ (files, err not_read)))
      ⊎ ((text : Bytes) × (files path ≡ some text)
          × ((out : List Bytes) → ¬ OneLine new_tag (lines_of text) out)
          × ((e : BumpError) × (run ≡ (files, err (value_error e)))))
      ⊎ ((text : Bytes) × (out : List Bytes) × (files path ≡ some text)
          × (join_lines (lines_of text) ≡ universal text)
          × OneLine new_tag (lines_of text) out
          × Wrote writing files path (join_lines out) run)
unfolding main rewrite
main-one writing files script path new_tag = elim (Option-cases (files path)) [
  | inl missing ↦ inl (missing, ground (arith, missing))
  | inr (text, there) ↦ elim (bump_tag-cases (universal text) new_tag) [
    | inl (e, bad, unfit) ↦ inr (inl (text, there, unfit, (e, ground (arith, there, bad))))
    | inr (out, done, one) ↦
        let wrote : write_text writing files path (join_lines out)
            ≡ main writing files (script ∷ path ∷ new_tag ∷ []) =
          ground (arith, there, done) in
        inr (
          inr (
            text,
            out,
            there,
            join_lines-split_lines (universal text),
            one,
            subst (Wrote writing files path (join_lines out)) wrote
                (write_text-Wrote writing files path (join_lines out)),
          ))
  ]
]
