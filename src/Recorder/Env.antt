-- ===== src/Recorder/Env.antt =====
-- services/vod-recorder/env.go: the settings and the segment, from the environment.
pub mod Laws
use vidcast.Base.{
  ℕ, ◌*◌, ◌^◌, Bool, not, List, [], ◌∷◌, ◌++◌, Option, none, some, Bytes, codes, Result, ok, err,
  if◌then◌else◌, ◌==◌, bytes_eq, ℤ, pos,
}
use vidcast.Base.Dict.{Dict, lookup}
use vidcast.Go.Fmt
use vidcast.Go.Strings.{contains_any}

-- Durations are in nanoseconds; this one is 30 minutes.
abbrev pub default_upload_timeout : ℤ
default_upload_timeout = pos (30 * 60 * 10 ^ 9)

pub record Config : Type 0 where
  pub endpoint : Bytes
  pub bucket : Bytes
  pub access_key : Bytes
  pub secret_key : Bytes
  pub use_path_style : Bool
  pub upload_timeout : ℤ

-- The map over which `loadConfig` ranges.
abbrev pub required : Config → Dict Bytes Bytes
required cfg =
    (codes "S3_ENDPOINT", cfg.endpoint)
    ∷ (codes "S3_BUCKET", cfg.bucket)
    ∷ (codes "S3_ACCESS_KEY", cfg.access_key)
    ∷ (codes "S3_SECRET_KEY", cfg.secret_key)
    ∷ []

-- The range loop, over the keys in the order of the visit; the first empty value stops it.
unfoldable pub first_missing : Dict Bytes Bytes → List Bytes → Option Bytes
first_missing m [] = none
first_missing m (name ∷ names) =
    let rest = first_missing m names in
    elim (lookup name m) [ none ↦ rest | some v ↦ if v == [] then some name else rest ]

abbrev pub not_set : Bytes → Bytes
not_set name = codes "required environment variable " ++ name ++ codes " is not set"

abbrev pub env_config : (Bytes → Bytes) → Config
env_config getenv = record {
  endpoint = getenv (codes "S3_ENDPOINT");
  bucket = getenv (codes "S3_BUCKET");
  access_key = getenv (codes "S3_ACCESS_KEY");
  secret_key = getenv (codes "S3_SECRET_KEY");
  use_path_style = not (getenv (codes "S3_USE_PATH_STYLE") == codes "false");
  upload_timeout = default_upload_timeout;
}

abbrev with_timeout : Config → Bytes → Result Bytes ℤ → Result Bytes Config
with_timeout cfg raw (err e) =
    err (codes "parse S3_UPLOAD_TIMEOUT " ++ Fmt.quote raw ++ codes ": " ++ e)
with_timeout cfg raw (ok d) = ok (record cfg { upload_timeout = d })

-- `loadConfig`. `order` is the order in which the loop visits the keys of its map, and
-- `parse_duration` is `time.ParseDuration`.
unfoldable pub load_config :
    (Bytes → Result Bytes ℤ) → List Bytes → (Bytes → Bytes) → Result Bytes Config
load_config parse_duration order getenv =
    let cfg = env_config getenv in
    let raw = getenv (codes "S3_UPLOAD_TIMEOUT") in
    elim (first_missing (required cfg) order) [
      | some name ↦ err (not_set name)
      | none ↦ if raw == [] then ok cfg else with_timeout cfg raw (parse_duration raw)
    ]

-- `containsPathTraversal`.
unfoldable pub contains_path_traversal : Bytes → Bool
unfolding contains_any
contains_path_traversal s = contains_any s (codes "/\\")

-- There are no floats: the type and `strconv.ParseFloat` are parameters.
pub record Segment (Float : Type 0) : Type 0 where
  pub path : Bytes
  pub local_path : Bytes
  pub duration : Float

module _ {Float : Type 0} (parse_float : Bytes → Result Bytes Float) where
  abbrev with_duration : Bytes → Bytes → Bytes → Result Bytes Float → Result Bytes (Segment Float)
  with_duration path local_path raw (err e) =
      err (codes "parse MTX_SEGMENT_DURATION " ++ Fmt.quote raw ++ codes ": " ++ e)
  with_duration path local_path raw (ok d) =
      ok (record { path = path; local_path = local_path; duration = d })

  -- `loadSegment`.
  unfoldable pub load_segment : (Bytes → Bytes) → Result Bytes (Segment Float)
  load_segment getenv =
      let path = getenv (codes "MTX_PATH") in
      let local_path = getenv (codes "MTX_SEGMENT_PATH") in
      let raw = getenv (codes "MTX_SEGMENT_DURATION") in
      if path == []
      then err (not_set (codes "MTX_PATH"))
      else if contains_path_traversal path
      then err (
          codes "MTX_PATH "
          ++ Fmt.quote path
          ++ codes " contains path traversal components (/, ..)")
      else if local_path == []
      then err (not_set (codes "MTX_SEGMENT_PATH"))
      else with_duration path local_path raw (parse_float raw)
