-- ===== src/Streams/Store/Listing.antt =====
-- store.go: what `ListLive` returns, whatever the order in which the map is visited.
use vidcast.Base.{
  ◌≡◌, refl, Bool, true, false, ◌||◌, none, some, List, [], ◌∷◌, arith, Bytes, ◌==◌, contains,
  bytes_eq, str_lt, str_lt_trans, str_lt_total, All, ◌∙◌,
}
use vidcast.Base.Dict.{Dict, lookup, NodupKeys}
use vidcast.Streams.Store.{
  Store, LiveChannel, ChannelRecord, insert_by_slug, sort_by_slug, collect_live, list_live,
}
use vidcast.Streams.Store.Index.{IsValid}

abbrev pub slugs_of : List LiveChannel → List Bytes
slugs_of [] = []
slugs_of (c ∷ cs) = c.slug ∷ slugs_of cs

-- The channel exists and is live.
abbrev pub live_in : Dict Bytes ChannelRecord → Bytes → Bool
live_in d k = elim (lookup k d) [ none ↦ false | some r ↦ r.live ]

-- Strictly ascending by slug, so no slug is listed twice.
abbrev pub IsAscending : List LiveChannel → Type 0
IsAscending [] = Unit
IsAscending (c ∷ cs) = All (λ d. str_lt c.slug d.slug ≡ true) cs × IsAscending cs

abbrev pub AllLive : List LiveChannel → Type 0
AllLive = All (λ c. c.live ≡ true)

contains-insert_by_slug :
    (c : LiveChannel) (ds : List LiveChannel) (k : Bytes)
    → contains (slugs_of (insert_by_slug c ds)) k ≡ (k == c.slug || contains (slugs_of ds) k)
unfolding insert_by_slug
contains-insert_by_slug c [] k = refl
contains-insert_by_slug c (d ∷ ds) k = ground (arith, contains-insert_by_slug c ds k)

contains-sort_by_slug :
    (cs : List LiveChannel) (k : Bytes)
    → contains (slugs_of (sort_by_slug cs)) k ≡ contains (slugs_of cs) k
unfolding sort_by_slug
contains-sort_by_slug [] k = refl
contains-sort_by_slug (c ∷ cs) k =
    ground (arith, contains-insert_by_slug c (sort_by_slug cs) k, contains-sort_by_slug cs k)

above-insert_by_slug :
    (x : Bytes) (c : LiveChannel) (ds : List LiveChannel)
    → str_lt x c.slug ≡ true
    → All (λ d. str_lt x d.slug ≡ true) ds
    → All (λ d. str_lt x d.slug ≡ true) (insert_by_slug c ds)
unfolding insert_by_slug
above-insert_by_slug x c [] h a = (h, tt)
above-insert_by_slug x c (d ∷ ds) h a = ground (arith, above-insert_by_slug x c ds h a.1)

-- A lower bound passes down.
pub above_trans :
    (x y : Bytes) (ds : List LiveChannel)
    → str_lt x y ≡ true
    → All (λ d. str_lt y d.slug ≡ true) ds
    → All (λ d. str_lt x d.slug ≡ true) ds
above_trans x y [] h a = tt
above_trans x y (d ∷ ds) h a = (str_lt_trans x y d.slug h a.0, above_trans x y ds h a.1)

insert_by_slug-IsAscending :
    (c : LiveChannel) (ds : List LiveChannel)
    → contains (slugs_of ds) c.slug ≡ false
    → IsAscending ds
    → IsAscending (insert_by_slug c ds)
unfolding insert_by_slug
insert_by_slug-IsAscending c [] n a = (tt, tt)
insert_by_slug-IsAscending c (d ∷ ds) n a = ground (
  arith,
  insert_by_slug-IsAscending c ds,
  above-insert_by_slug d.slug c ds,
  above_trans c.slug d.slug ds,
  str_lt_total c.slug d.slug,
)

-- No slug occurs twice.
abbrev NodupSlugs : List LiveChannel → Type 0
NodupSlugs [] = Unit
NodupSlugs (c ∷ cs) = (contains (slugs_of cs) c.slug ≡ false) × NodupSlugs cs

sort_by_slug-IsAscending : (cs : List LiveChannel) → NodupSlugs cs → IsAscending (sort_by_slug cs)
unfolding sort_by_slug
sort_by_slug-IsAscending [] n = tt
sort_by_slug-IsAscending (c ∷ cs) n =
    insert_by_slug-IsAscending c (sort_by_slug cs) (ground (arith, contains-sort_by_slug cs c.slug))
      (sort_by_slug-IsAscending cs n.1)

insert_by_slug-AllLive :
    (c : LiveChannel) (ds : List LiveChannel)
    → c.live ≡ true
    → AllLive ds
    → AllLive (insert_by_slug c ds)
unfolding insert_by_slug
insert_by_slug-AllLive c [] h a = (h, tt)
insert_by_slug-AllLive c (d ∷ ds) h a = ground (arith, insert_by_slug-AllLive c ds h a.1)

sort_by_slug-AllLive : (cs : List LiveChannel) → AllLive cs → AllLive (sort_by_slug cs)
unfolding sort_by_slug
sort_by_slug-AllLive [] a = tt
sort_by_slug-AllLive (c ∷ cs) a =
    insert_by_slug-AllLive c (sort_by_slug cs) a.0 (sort_by_slug-AllLive cs a.1)

collect_live-AllLive : (d : Dict Bytes ChannelRecord) → AllLive (collect_live d)
unfolding collect_live
collect_live-AllLive [] = tt
collect_live-AllLive ((k, r) ∷ d) = ground (arith, collect_live-AllLive d)

-- The entries stand under their slugs.
abbrev SlugKeys : Dict Bytes ChannelRecord → Type 0
SlugKeys d = (k : Bytes) (r : ChannelRecord) → lookup k d ≡ some r → r.slug ≡ k

SlugKeys-tail :
    (k : Bytes) (r : ChannelRecord) (d : Dict Bytes ChannelRecord)
    → NodupKeys ((k, r) ∷ d)
    → SlugKeys ((k, r) ∷ d)
    → SlugKeys d
unfolding lookup
SlugKeys-tail k r d n h j t e = ground (arith, h j t, n.0)

SlugKeys-head :
    (k : Bytes) (r : ChannelRecord) (d : Dict Bytes ChannelRecord)
    → SlugKeys ((k, r) ∷ d)
    → r.slug ≡ k
unfolding lookup
SlugKeys-head k r d h = h k r (ground arith)

contains-collect_live :
    (d : Dict Bytes ChannelRecord) (k : Bytes)
    → NodupKeys d
    → SlugKeys d
    → contains (slugs_of (collect_live d)) k ≡ live_in d k
unfolding collect_live lookup
contains-collect_live [] k n h = refl
contains-collect_live ((j, r) ∷ d) k n h =
    let rest = contains-collect_live d k n.1 (SlugKeys-tail j r d n h) in
    ground (arith, rest, SlugKeys-head j r d h, n.0)

collect_live-NodupSlugs :
    (d : Dict Bytes ChannelRecord) → NodupKeys d → SlugKeys d → NodupSlugs (collect_live d)
unfolding collect_live
collect_live-NodupSlugs [] n h = tt
collect_live-NodupSlugs ((j, r) ∷ d) n h =
    let t = SlugKeys-tail j r d n h in
    ground (
      arith,
      collect_live-NodupSlugs d n.1 t,
      contains-collect_live d r.slug n.1 t,
      SlugKeys-head j r d h,
      n.0,
    )

-- `ListLive` on a valid store returns the live channels and no others, each once, sorted by slug,
-- and each with its live flag set.
pub list_live_lem :
    (s : Store)
    → IsValid s
    → IsAscending (list_live s)
      × AllLive (list_live s)
      × ((k : Bytes) → contains (slugs_of (list_live s)) k ≡ live_in s.channels k)
unfolding list_live
list_live_lem s v =
    let cs = collect_live s.channels in
    (
      sort_by_slug-IsAscending cs (collect_live-NodupSlugs s.channels v.nodup v.slugs),
      sort_by_slug-AllLive cs (collect_live-AllLive s.channels),
      λ k. contains-sort_by_slug cs k ∙ contains-collect_live s.channels k v.nodup v.slugs,
    )
