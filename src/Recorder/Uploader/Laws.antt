-- ===== src/Recorder/Uploader/Laws.antt =====
-- uploader.go: where a segment is stored, and as what.
use vidcast.Base.{
  ◌≡◌, refl, ◌∙◌, ap, ◌≢◌, false, [], ◌∷◌, ◌++◌, arith, Bytes, codes, bytes_eq, nat_eq,
}
use vidcast.Go.FilePath
use vidcast.Go.FilePath.{slash, dot_dot, join_slash, walk, walk_segment, ext}
use vidcast.Go.FilePath.Laws.{IsPlain, join-IsPlain, walk_segment-IsPlain, or_dot-ne}
use vidcast.Go.Strings.{Lacks, split, split-append, split-Lacks}
use vidcast.Recorder.Env.{contains_path_traversal}
use vidcast.Streams.S3Client.Laws.{recordings-IsPlain}
use vidcast.Recorder.Uploader.{object_key, content_type}

-- For a path and a file name that are plain segments, the key is the three segments with one slash
-- between them.
pub object_key-IsPlain :
    (path local_path : Bytes)
    → IsPlain path
    → IsPlain (FilePath.base local_path)
    → object_key path local_path ≡ codes "recordings/" ++ path ++ slash ∷ FilePath.base local_path
unfolding object_key join_slash
object_key-IsPlain path local_path p b =
    join-IsPlain (codes "recordings") (path ∷ FilePath.base local_path ∷ [])
      (recordings-IsPlain, (p, (b, tt)))

escape_split :
    (b : Bytes)
    → Lacks slash b
    → split slash (codes "recordings/../" ++ b) ≡ codes "recordings" ∷ dot_dot ∷ b ∷ []
escape_split b flat =
    split-append slash (codes "recordings") (codes "../" ++ b) (omega arith)
    ∙ ap (◌∷◌ (codes "recordings"))
        (split-append slash dot_dot b (omega arith) ∙ ap (◌∷◌ dot_dot) (split-Lacks slash b flat))

escape_walk :
    (b : Bytes) → IsPlain b → walk false [] (codes "recordings" ∷ dot_dot ∷ b ∷ []) ≡ b ∷ []
unfolding walk walk_segment bytes_eq
escape_walk b p = walk_segment-IsPlain [] b p

-- The path `..`, which the guard of the segment lets through, leaves the prefix: whatever plain file
-- is recorded under it, its key is the name of the file alone.
pub object_key_escapes :
    (local_path : Bytes)
    → IsPlain (FilePath.base local_path)
    → (contains_path_traversal dot_dot ≡ false)
      × (object_key dot_dot local_path ≡ FilePath.base local_path)
unfolding object_key FilePath.join FilePath.clean contains_path_traversal nat_eq
object_key_escapes local_path p =
    let b = FilePath.base local_path in
    (refl, rw (escape_split b p.flat, escape_walk b p) (or_dot-ne b p.nonempty))

ext-dot : (e p : Bytes) → e ≢ [] → ext e ≡ e → ext (p ++ e) ≡ e
unfolding ext
ext-dot [] p n h = absurd (n refl)
ext-dot (d ∷ e) [] n h = h
ext-dot (d ∷ e) (c ∷ p) n h = ground (arith, ext-dot (d ∷ e) p n h)

-- Files that end in `.mp4` and `.ts` are sent as these types, whatever their name before that.
pub content_type_lem :
    (p : Bytes)
    → (content_type (p ++ codes ".mp4") ≡ codes "video/mp4")
      × (content_type (p ++ codes ".ts") ≡ codes "video/mp2t")
unfolding content_type bytes_eq nat_eq
content_type_lem p = (
  rw (ext-dot (codes ".mp4") p (λ e. cc) refl) refl,
  rw (ext-dot (codes ".ts") p (λ e. cc) refl) refl,
)
