-- ===== src/Go/FilePath.antt =====
-- `path` and `path/filepath` as they are on Unix: Clean, Join, Base and Ext.
pub mod Laws
use mathlib.Core.List.{reverse}
use vidcast.Base.{
  ℕ, suc, ◌+◌, ◌≡◌, refl, Bool, true, false, not, ◌&&◌, ◌||◌, List, [], ◌∷◌, ◌++◌, Option, none,
  some, Bytes, codes, if◌then◌else◌, ◌==◌, contains, nat_eq, bytes_eq,
}
use vidcast.Go.Strings.{split, last_index, drop, trim_left, has_prefix}

abbrev pub slash : ℕ
slash = b'/'

abbrev pub dot_dot : Bytes
dot_dot = codes ".."

-- What `..` does to the segments kept so far, the last one first.
unfoldable pub step_back : Bool → List Bytes → List Bytes
step_back rooted [] = if rooted then [] else dot_dot ∷ []
step_back rooted (top ∷ kept) = if top == dot_dot then dot_dot ∷ top ∷ kept else kept

-- One segment of the path.
unfoldable pub walk_segment : Bool → List Bytes → Bytes → List Bytes
unfolding step_back
walk_segment rooted kept seg =
    if seg == [] || seg == codes "."
    then kept
    else if seg == dot_dot
    then step_back rooted kept
    else seg ∷ kept

unfoldable pub walk : Bool → List Bytes → List Bytes → List Bytes
unfolding walk_segment
walk rooted kept [] = kept
walk rooted kept (seg ∷ segs) = walk rooted (walk_segment rooted kept seg) segs

-- The segments with a slash between them.
unfoldable pub join_slash : List Bytes → Bytes
join_slash [] = []
join_slash (p ∷ []) = p
join_slash (p ∷ q ∷ ps) = p ++ slash ∷ join_slash (q ∷ ps)

abbrev pub or_dot : Bytes → Bytes
or_dot [] = codes "."
or_dot (c ∷ s) = c ∷ s

-- `Clean`.
unfoldable pub clean : Bytes → Bytes
unfolding walk join_slash has_prefix split
clean s =
    let rooted = has_prefix s (slash ∷ []) in
    or_dot
      ((if rooted then slash ∷ [] else []) ++ join_slash (reverse (walk rooted [] (split slash s))))

-- The buffer of `Join`: a slash goes before an element once the buffer holds something.
unfoldable pub join_buffer : Bytes → List Bytes → Bytes
join_buffer buf [] = buf
join_buffer [] (e ∷ es) = join_buffer e es
join_buffer (c ∷ buf) (e ∷ es) = join_buffer (c ∷ buf ++ slash ∷ e) es

abbrev clean_joined : Bytes → Bytes
clean_joined [] = []
clean_joined (c ∷ s) = clean (c ∷ s)

-- `Join`.
unfoldable pub join : List Bytes → Bytes
unfolding join_buffer clean
join elems = clean_joined (join_buffer [] elems)

-- What follows the last slash.
unfoldable pub after_last_slash : Bytes → Bytes
unfolding last_index drop
after_last_slash s = elim (last_index slash s) [ none ↦ s | some i ↦ drop (suc i) s ]

abbrev or_slash : Bytes → Bytes
or_slash [] = slash ∷ []
or_slash (c ∷ s) = c ∷ s

abbrev trim_right_slashes : Bytes → Bytes
trim_right_slashes s = reverse (trim_left (λ x. x == slash) (reverse s))

-- `filepath.Base`.
unfoldable pub base : Bytes → Bytes
unfolding after_last_slash trim_left
base [] = codes "."
base (c ∷ s) = or_slash (after_last_slash (trim_right_slashes (c ∷ s)))

-- `filepath.Ext`: the last segment from its last dot on.
unfoldable pub ext : Bytes → Bytes
ext [] = []
ext (c ∷ s) =
    let rest = ext s in
    elim rest [ (d ∷ t) ↦ d ∷ t | [] ↦ if c == b'.' && not (contains s slash) then c ∷ s else [] ]
