-- ===== src/Recorder/Uploader.antt =====
-- services/vod-recorder/uploader.go: the upload of one segment. The S3 client of the AWS SDK is the
-- parameter `put_object` on the state `Remote` of the object storage; `open_file` is what `os.Open`
-- gives, an error or the content that the file has. That reading it can fail is left to the errors
-- of `put_object`, which does the reading.
pub mod Laws
use vidcast.Base.{
  ℕ, Bool, List, [], ◌∷◌, ◌++◌, Option, none, some, Bytes, codes, Result, ok, err, if◌then◌else◌,
  ◌==◌, bytes_eq, ℤ,
}
use vidcast.Base.Dict.{Dict}
use vidcast.Go.FilePath
use vidcast.Go.Strings.{to_lower}
use vidcast.Recorder.Env.{Config, Segment}

pub record Credentials : Type 0 where
  pub access_key_id : Bytes
  pub secret_access_key : Bytes

-- `staticCredentials.Retrieve`.
unfoldable pub retrieve : Credentials → Result Bytes Credentials
retrieve c = ok c

pub record Options : Type 0 where
  pub region : Bytes
  pub base_endpoint : Bytes
  pub use_path_style : Bool
  pub credentials : Credentials

-- `newS3Client`.
unfoldable pub new_s3_client : Config → Options
new_s3_client cfg = record {
  region = codes "us-east-1";
  base_endpoint = cfg.endpoint;
  use_path_style = cfg.use_path_style;
  credentials = record { access_key_id = cfg.access_key; secret_access_key = cfg.secret_key };
}

-- `objectKey` of the path and the local file of a segment.
unfoldable pub object_key : Bytes → Bytes → Bytes
unfolding FilePath.join FilePath.base
object_key path local_path =
    FilePath.join (codes "recordings" ∷ path ∷ FilePath.base local_path ∷ [])

-- `contentType`. `to_lower` is exact here: a character beyond ASCII is never lowered to a letter of
-- these extensions.
unfoldable pub content_type : Bytes → Bytes
unfolding to_lower FilePath.ext
content_type local_path =
    let e = to_lower (FilePath.ext local_path) in
    if e == codes ".mp4"
    then codes "video/mp4"
    else if e == codes ".ts"
    then codes "video/mp2t"
    else codes "application/octet-stream"

pub record PutObjectInput : Type 0 where
  pub bucket : Bytes
  pub key : Bytes
  pub body : Bytes
  pub content_type : Bytes
  pub metadata : Dict Bytes Bytes

-- What is sent for a segment with this content.
unfoldable pub put_input :
    {Float : Type 0} → (Float → Bytes) → Bytes → Segment Float → Bytes → PutObjectInput
put_input format_float bucket seg content = record {
  bucket = bucket;
  key = object_key seg.path seg.local_path;
  body = content;
  content_type = content_type seg.local_path;
  metadata = (codes "duration-seconds", format_float seg.duration) ∷ [];
}

module _ {Remote Float : Type 0}
    (put_object : PutObjectInput → Remote → Remote × Result Bytes (Unit {0}))
    (open_file : Bytes → Result Bytes Bytes) (format_float : Float → Bytes) where
  abbrev wrap_put :
      Bytes → Segment Float → Remote × Result Bytes (Unit {0}) → Remote × Result Bytes (Unit {0})
  wrap_put bucket seg (remote, ok t) = (remote, ok t)
  wrap_put bucket seg (remote, err e) = (
    remote,
    err (
        codes "upload segment to s3://"
        ++ bucket
        ++ codes "/"
        ++ object_key seg.path seg.local_path
        ++ codes ": "
        ++ e),
  )

  -- `uploadSegment`.
  unfoldable pub upload_segment : Bytes → Segment Float → Remote → Remote × Result Bytes (Unit {0})
  upload_segment bucket seg remote = elim (open_file seg.local_path) [
    | err e ↦ (remote, err (codes "open segment file " ++ seg.local_path ++ codes ": " ++ e))
    | ok content ↦
        wrap_put bucket seg (put_object (put_input format_float bucket seg content) remote)
  ]
