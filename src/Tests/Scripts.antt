-- ===== src/Tests/Scripts.antt =====
-- A manifest whose tag is bumped.
use vidcast.Base.{
  ℕ, Result, ◌≡◌, refl, List, [], ◌∷◌, ◌⊎◌, some, none, Bytes, err, codes, arith, if◌then◌else◌,
  ◌==◌, nat_eq, bytes_eq,
}
use vidcast.Go.Strings.{drop}
use vidcast.Ci.BumpTag.{
  Files, Raised, BumpError, value_error, not_read, completes, join_lines, universal, start,
  bump_lines, main,
}
use vidcast.Ci.BumpTag.Block.{OneLine}
use vidcast.Ci.BumpTag.Run.{main-one, lines_of, Wrote}
use vidcast.Ci.BumpTag.Again.{bump_lines-bump_lines}

abbrev manifest : Bytes
manifest = codes "image:\n  tag: a # by CI\nport: 80"

abbrev path : Bytes
path = codes "v"

abbrev files : Files
files p = if p == path then some manifest else none

abbrev run : Files × Result Raised ℕ
run = main completes files ([] ∷ path ∷ codes "b" ∷ [])

main-one_example :
    ((files path ≡ none) × (run ≡ (files, err not_read)))
    ⊎ ((text : Bytes) × (files path ≡ some text)
        × ((out : List Bytes) → ¬ OneLine (codes "b") (lines_of text) out)
        × ((e : BumpError) × (run ≡ (files, err (value_error e)))))
    ⊎ ((text : Bytes) × (out : List Bytes) × (files path ≡ some text)
        × (join_lines (lines_of text) ≡ universal text)
        × OneLine (codes "b") (lines_of text) out
        × Wrote completes files path (join_lines out) run)
main-one_example = main-one completes files [] path (codes "b")

abbrev lines : List Bytes
lines = codes "image:\n" ∷ codes "  tag: a # x" ∷ []

abbrev bumped : List Bytes
bumped = codes "image:\n" ∷ codes "  tag: b  # x\n" ∷ []

bump_lines-bump_lines_example :
    bump_lines (codes "c") start bumped ≡ bump_lines (codes "c") start lines
unfolding bump_lines drop nat_eq bytes_eq
bump_lines-bump_lines_example =
    bump_lines-bump_lines (codes "b") (codes "c") lines start bumped
      ((λ e. cc), (refl, tt), ((λ e. omega (arith, e)), tt)) refl
