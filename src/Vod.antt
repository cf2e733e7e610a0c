-- ===== src/Vod.antt =====
-- services/vod-recorder/uploader.go and services/streams/s3client.go together: the recorder stores a
-- segment under the key that the streams service lists for the channel.
use vidcast.Base.{
  ◌≡◌, refl, sym, ◌∙◌, ap, ap₂, ◌↔◌, true, false, [], ◌∷◌, ◌++◌, arith, Bytes, codes, bytes_eq,
  nat_eq,
}
use vidcast.Go.FilePath
use vidcast.Go.FilePath.{slash}
use vidcast.Go.FilePath.Laws.{IsPlain}
use vidcast.Go.Strings.{has_prefix, Lacks, has_prefix-append}
use vidcast.Recorder.Uploader.{object_key}
use vidcast.Recorder.Uploader.Laws.{object_key-IsPlain}
use vidcast.Streams.Recordings.{contains_path_traversal}
use vidcast.Streams.S3Client.{list_prefix}
use vidcast.Streams.S3Client.Laws.{list_prefix-IsPlain, list_prefix-dot}

has_prefix_cancel : (p s t : Bytes) → has_prefix (p ++ s) (p ++ t) ≡ has_prefix s t
unfolding has_prefix
has_prefix_cancel [] s t = refl
has_prefix_cancel (c ∷ p) s t = ground (arith, has_prefix_cancel p s t)

-- A first segment is the same when it is a prefix together with its slash.
same_segment :
    (a b rest : Bytes)
    → Lacks slash a
    → Lacks slash b
    → has_prefix (a ++ slash ∷ rest) (b ++ slash ∷ []) ≡ true
    → a ≡ b
unfolding has_prefix
same_segment [] [] rest f g h = refl
same_segment [] (d ∷ b) rest f g h = ground arith
same_segment (c ∷ a) [] rest f g h = ground arith
same_segment (c ∷ a) (d ∷ b) rest f g h = ground (arith, same_segment a b rest f.1 g.1)

segment_prefix : (a rest : Bytes) → has_prefix (a ++ slash ∷ rest) (a ++ slash ∷ []) ≡ true
segment_prefix a rest =
    has_prefix_cancel a (slash ∷ rest) (slash ∷ []) ∙ unfold has_prefix in ground arith

module _ (path local_path : Bytes) (plain : IsPlain path)
    (plain_file : IsPlain (FilePath.base local_path)) where
  -- For plain segments, the key of a recording falls under the prefix that is listed for a slug
  -- exactly when the slug is the path under which it was recorded: a channel's listing shows its
  -- own recordings and no others.
  pub listed_iff :
      (slug : Bytes)
      → IsPlain slug
      → (has_prefix (object_key path local_path) (list_prefix slug) ≡ true) ↔ (path ≡ slug)
  listed_iff slug p =
      let rest = FilePath.base local_path in
      let same : has_prefix (object_key path local_path) (list_prefix slug)
          ≡ has_prefix (path ++ slash ∷ rest) (slug ++ slash ∷ []) =
        ap₂ has_prefix (object_key-IsPlain path local_path plain plain_file)
          (list_prefix-IsPlain slug p)
        ∙ has_prefix_cancel (codes "recordings/") (path ++ slash ∷ rest) (slug ++ slash ∷ []) in
      (
        λ h. same_segment path slug rest plain.flat p.flat (sym same ∙ h),
        λ e.
            same
            ∙ ap (λ s. has_prefix (path ++ slash ∷ rest) (s ++ slash ∷ [])) (sym e)
            ∙ segment_prefix path rest,
      )

  -- The slug `.` passes the guard of the listing, and every recording whose path and file name are
  -- plain, of whatever channel, falls under its prefix.
  pub dot_lists_all :
      (contains_path_traversal (codes ".") ≡ false)
      × (has_prefix (object_key path local_path) (list_prefix (codes ".")) ≡ true)
  unfolding contains_path_traversal nat_eq
  dot_lists_all = (
    refl,
    ap₂ has_prefix (object_key-IsPlain path local_path plain plain_file) list_prefix-dot
        ∙ has_prefix-append (codes "recordings/") (path ++ slash ∷ FilePath.base local_path),
  )
