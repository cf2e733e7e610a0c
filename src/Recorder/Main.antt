-- ===== src/Recorder/Main.antt =====
-- services/vod-recorder/main.go: one run of the hook, on the local files and the object storage.
pub mod Durable
use vidcast.Base.{
  Bool, List, [], ◌∷◌, ◌++◌, Option, none, some, Bytes, codes, Result, ok, err, ℤ, bytes_eq,
}
use vidcast.Base.Dict.{Dict, lookup, delete}
use vidcast.Recorder.Env.{Config, Segment, load_config, load_segment}
use vidcast.Recorder.Uploader.{PutObjectInput, Options, new_s3_client, object_key, upload_segment}

-- How the run ends: `log.Fatalf` with its text, or a normal end with the lines of the log.
pub data Exit : Type 0 where
  fatal : Bytes → Exit
  done : List Bytes → Exit

pub record World (Remote : Type 0) : Type 0 where
  -- The local files and their contents.
  pub files : Dict Bytes Bytes
  pub remote : Remote

-- What the program does not implement: the parsers of durations and floats, the S3 client, which
-- gets its options and the timeout of the context, and the answers of the operating system.
pub record Platform (Remote Float : Type 0) : Type 0 where
  pub parse_duration : Bytes → Result Bytes ℤ
  pub order : List Bytes
  pub parse_float : Bytes → Result Bytes Float
  pub format_float : Float → Bytes
  pub put_object : Options → ℤ → PutObjectInput → Remote → Remote × Result Bytes (Unit {0})
  -- The error of opening a file that does not exist, or of one that exists and cannot be opened.
  pub no_such_file : Bytes
  pub unopenable : Bytes → Option Bytes
  -- The error of `os.Remove`, if it fails.
  pub unremovable : Bytes → Option Bytes

module _ {Remote Float : Type 0} (p : Platform Remote Float) where
  -- `os.Open`.
  abbrev pub open_file : Dict Bytes Bytes → Bytes → Result Bytes Bytes
  open_file files path = elim (lookup path files) [
    | none ↦ err p.no_such_file
    | some content ↦ elim (p.unopenable path) [ some e ↦ err e | none ↦ ok content ]
  ]

  abbrev not_removed : Bytes → Bytes → Bytes
  not_removed path e =
      codes "vod-recorder: uploaded but failed to remove local copy " ++ path ++ codes ": " ++ e

  -- From the removal of the local copy on.
  abbrev pub clean_up : World Remote → Segment Float → Bytes → World Remote × Exit
  clean_up w seg uploaded = elim (p.unremovable seg.local_path) [
    | some e ↦ (w, done (uploaded ∷ not_removed seg.local_path e ∷ []))
    | none ↦ (record w { files = delete seg.local_path w.files }, done (uploaded ∷ []))
  ]

  abbrev uploaded_line : Config → Segment Float → Bytes
  uploaded_line cfg seg =
      codes "vod-recorder: uploaded "
      ++ seg.local_path
      ++ codes " to s3://"
      ++ cfg.bucket
      ++ codes "/"
      ++ object_key seg.path seg.local_path

  abbrev pub after_upload :
      World Remote → Config → Segment Float → Remote × Result Bytes (Unit {0}) → World Remote × Exit
  after_upload w cfg seg (remote, err e) =
      (record w { remote = remote }, fatal (codes "vod-recorder: " ++ e))
  after_upload w cfg seg (remote, ok t) =
      clean_up (record w { remote = remote }) seg (uploaded_line cfg seg)

  abbrev pub upload : World Remote → Config → Segment Float → World Remote × Exit
  upload w cfg seg = after_upload w cfg seg (
      upload_segment (p.put_object (new_s3_client cfg) cfg.upload_timeout) (open_file w.files)
        p.format_float cfg.bucket seg w.remote)

  abbrev pub with_segment :
      World Remote → Config → Result Bytes (Segment Float) → World Remote × Exit
  with_segment w cfg (err e) = (w, fatal (codes "vod-recorder: " ++ e))
  with_segment w cfg (ok seg) = upload w cfg seg

  abbrev pub with_config :
      World Remote → (Bytes → Bytes) → Result Bytes Config → World Remote × Exit
  with_config w getenv (err e) = (w, fatal (codes "vod-recorder: " ++ e))
  with_config w getenv (ok cfg) = with_segment w cfg (load_segment p.parse_float getenv)

  -- `main`.
  unfoldable pub main : (Bytes → Bytes) → World Remote → World Remote × Exit
  main getenv w = with_config w getenv (load_config p.parse_duration p.order getenv)
