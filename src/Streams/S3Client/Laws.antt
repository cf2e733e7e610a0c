-- ===== src/Streams/S3Client/Laws.antt =====
-- s3client.go: configuration, paging and prefixes.
use vidcast.Base.{
  ◌≡◌, refl, ◌≢◌, ◌↔◌, ◌∙◌, sym, ap, false, List, [], ◌∷◌, ◌++◌, map, append_assoc, append-nil,
  some, arith, Bytes, codes, Result, ok, err, bytes_eq, nat_eq,
}
use mathlib.Core.List.{map-append}
use vidcast.Go.FilePath
use vidcast.Go.FilePath.{slash, dot_dot, join_slash}
use vidcast.Go.FilePath.Laws.{IsPlain, join-IsPlain}
use vidcast.Streams.S3Client.{
  Sdk, S3Recordings, location, list_recordings, S3Config, S3Object, RecordingObject, load_s3_config,
  to_recording, collect_pages, list_prefix,
}

-- A configuration is loaded exactly when the four required variables are set, and it holds them;
-- path-style addressing is on unless its variable says "false".
pub load_s3_config_lem :
    (getenv : Bytes → Bytes) (cfg : S3Config)
    → (load_s3_config getenv ≡ some cfg) ↔ (
        (cfg.endpoint ≡ getenv (codes "S3_ENDPOINT"))
        × (cfg.bucket ≡ getenv (codes "S3_BUCKET"))
        × (cfg.access_key ≡ getenv (codes "S3_ACCESS_KEY"))
        × (cfg.secret_key ≡ getenv (codes "S3_SECRET_KEY"))
        × ((cfg.use_path_style ≡ false) ↔ (getenv (codes "S3_USE_PATH_STYLE") ≡ codes "false"))
        × (cfg.endpoint ≢ [])
        × (cfg.bucket ≢ [])
        × (cfg.access_key ≢ [])
        × (cfg.secret_key ≢ []))
unfolding load_s3_config
load_s3_config_lem getenv cfg = (λ h. ground arith, λ h. ground arith)

abbrev pub concat_pages : List (List S3Object) → List S3Object
concat_pages [] = []
concat_pages (p ∷ ps) = p ++ concat_pages ps

collect_pages-ok :
    (loc : Bytes) (pages : List (List S3Object)) (objects : List RecordingObject)
    → collect_pages loc (map ok pages) objects
      ≡ ok (objects ++ map to_recording (concat_pages pages))
unfolding collect_pages
collect_pages-ok loc [] objects = ap ok (sym (append-nil objects))
collect_pages-ok loc (p ∷ ps) objects =
    collect_pages-ok loc ps (objects ++ map to_recording p)
    ∙ ap ok (
        append_assoc objects (map to_recording p) (map to_recording (concat_pages ps))
        ∙ ap (λ l. objects ++ l) (sym (map-append to_recording p (concat_pages ps))))

-- A listing that fails on some page fails as a whole.
collect_pages-err :
    (loc e : Bytes) (pages : List (List S3Object)) (rest : List (Result Bytes (List S3Object)))
    → (objects : List RecordingObject)
    → collect_pages loc (map ok pages ++ err e ∷ rest) objects
      ≡ err (codes "list recordings under " ++ loc ++ codes ": " ++ e)
unfolding collect_pages
collect_pages-err loc e [] rest objects = refl
collect_pages-err loc e (p ∷ ps) rest objects =
    collect_pages-err loc e ps rest (objects ++ map to_recording p)

module _ (sdk : Sdk) (s : S3Recordings) (slug : Bytes) where
  -- A listing returns the objects of all pages in order when every page arrives, and fails with the
  -- error of the first page that does not, whatever the pages before it held.
  pub list_recordings_lem :
      (pages : List (List S3Object))
      → (sdk.pages s.client s.bucket (list_prefix slug) ≡ map ok pages
          → list_recordings sdk s slug ≡ ok (map to_recording (concat_pages pages)))
        × ((e : Bytes) (rest : List (Result Bytes (List S3Object)))
            → sdk.pages s.client s.bucket (list_prefix slug) ≡ map ok pages ++ err e ∷ rest
            → list_recordings sdk s slug
              ≡ err (
                  codes "list recordings under "
                  ++ location s.bucket (list_prefix slug)
                  ++ codes ": "
                  ++ e))
  unfolding list_recordings
  list_recordings_lem pages = (
    λ h.
        ap (λ p. collect_pages (location s.bucket (list_prefix slug)) p []) h
        ∙ collect_pages-ok (location s.bucket (list_prefix slug)) pages [],
    λ e rest h.
        ap (λ p. collect_pages (location s.bucket (list_prefix slug)) p []) h
        ∙ collect_pages-err (location s.bucket (list_prefix slug)) e pages rest [],
  )

pub recordings-IsPlain : IsPlain (codes "recordings")
recordings-IsPlain = record {
  flat = omega arith;
  nonempty = λ e. cc;
  not_dot = λ e. cc;
  not_dot_dot = λ e. cc;
}

-- The prefix of a plain slug is the directory of this slug under recordings.
pub list_prefix-IsPlain :
    (slug : Bytes) → IsPlain slug → list_prefix slug ≡ codes "recordings/" ++ slug ++ slash ∷ []
unfolding list_prefix join_slash
list_prefix-IsPlain slug p =
    ap (λ t. t ++ slash ∷ [])
      (join-IsPlain (codes "recordings") (slug ∷ []) (recordings-IsPlain, (p, tt)))

-- The prefix of `.` is the directory of all recordings.
pub list_prefix-dot : list_prefix (codes ".") ≡ codes "recordings/"
unfolding list_prefix FilePath.join nat_eq bytes_eq
list_prefix-dot = refl
