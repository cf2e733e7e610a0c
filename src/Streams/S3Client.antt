-- ===== src/Streams/S3Client.antt =====
-- services/streams/s3client.go: the recordings of a bucket. The S3 client of the AWS SDK is the
-- parameter `Sdk`: what its paginator yields page by page, and what it signs.
pub mod Laws
use vidcast.Base.{
  ℕ, ◌≡◌, Bool, true, false, not, ◌||◌, List, [], ◌∷◌, ◌++◌, map, Option, none, some, Bytes, codes,
  Result, ok, err, if◌then◌else◌, ◌==◌, bytes_eq,
}
use vidcast.Go.FilePath
use vidcast.Go.FilePath.{slash}

pub record S3Config : Type 0 where
  pub endpoint : Bytes
  pub bucket : Bytes
  pub access_key : Bytes
  pub secret_key : Bytes
  pub use_path_style : Bool

-- `loadS3Config`.
unfoldable pub load_s3_config : (Bytes → Bytes) → Option S3Config
load_s3_config getenv =
    let bucket = getenv (codes "S3_BUCKET") in
    let endpoint = getenv (codes "S3_ENDPOINT") in
    let access_key = getenv (codes "S3_ACCESS_KEY") in
    let secret_key = getenv (codes "S3_SECRET_KEY") in
    if bucket == []
    then none
    else if endpoint == [] || access_key == [] || secret_key == []
    then none
    else some (record {
      endpoint = endpoint;
      bucket = bucket;
      access_key = access_key;
      secret_key = secret_key;
      use_path_style = not (getenv (codes "S3_USE_PATH_STYLE") == codes "false");
    })

pub record Credentials : Type 0 where
  pub access_key_id : Bytes
  pub secret_access_key : Bytes

-- `staticCredentials.Retrieve`: the pair as it is, and never an error.
unfoldable pub retrieve : Credentials → Result Bytes Credentials
retrieve c = ok c

-- The options that the client is built from.
pub record Options : Type 0 where
  pub region : Bytes
  pub base_endpoint : Bytes
  pub use_path_style : Bool
  pub credentials : Credentials

-- One object of a listing; the SDK gives pointers, and `none` is nil. Sizes and times are only
-- copied, so natural numbers stand for them.
pub record S3Object : Type 0 where
  pub key : Option Bytes
  pub size : Option ℕ
  pub last_modified : Option ℕ

pub record RecordingObject : Type 0 where
  pub key : Bytes
  pub size_bytes : ℕ
  pub last_modified : ℕ

-- The pages of a listing of a bucket under a prefix, and a signed URL for a key with its expiry.
pub record Sdk : Type 0 where
  pub pages : Options → Bytes → Bytes → List (Result Bytes (List S3Object))
  pub presign : Options → Bytes → Bytes → ℕ → Result Bytes Bytes

pub record S3Recordings : Type 0 where
  pub client : Options
  pub bucket : Bytes

-- `newS3Recordings`.
unfoldable pub new_s3_recordings : S3Config → S3Recordings
new_s3_recordings cfg = record {
  client = record {
    region = codes "us-east-1";
    base_endpoint = cfg.endpoint;
    use_path_style = cfg.use_path_style;
    credentials = record { access_key_id = cfg.access_key; secret_access_key = cfg.secret_key };
  };
  bucket = cfg.bucket;
}

-- `aws.ToString` and the like: nil becomes the zero value.
abbrev or_zero {ℓ} : {A : Type ℓ} → A → Option A → A
or_zero z none = z
or_zero z (some a) = a

abbrev pub to_recording : S3Object → RecordingObject
to_recording o = record {
  key = or_zero [] o.key;
  size_bytes = or_zero 0 o.size;
  last_modified = or_zero 0 o.last_modified;
}

abbrev location : Bytes → Bytes → Bytes
location bucket name = codes "s3://" ++ bucket ++ codes "/" ++ name

-- The loop over the pages.
unfoldable pub collect_pages :
    Bytes
    → List (Result Bytes (List S3Object))
    → List RecordingObject
    → Result Bytes (List RecordingObject)
collect_pages where_ [] objects = ok objects
collect_pages where_ (err e ∷ pages) objects =
    err (codes "list recordings under " ++ where_ ++ codes ": " ++ e)
collect_pages where_ (ok contents ∷ pages) objects =
    collect_pages where_ pages (objects ++ map to_recording contents)

-- The prefix of a channel's recordings.
unfoldable pub list_prefix : Bytes → Bytes
unfolding FilePath.join
list_prefix slug = FilePath.join (codes "recordings" ∷ slug ∷ []) ++ slash ∷ []

module _ (sdk : Sdk) where
  -- `ListRecordings`.
  unfoldable pub list_recordings : S3Recordings → Bytes → Result Bytes (List RecordingObject)
  unfolding collect_pages
  list_recordings s slug =
      let prefix = list_prefix slug in
      collect_pages (location s.bucket prefix) (sdk.pages s.client s.bucket prefix) []

  -- `PresignGet`.
  unfoldable pub presign_get : S3Recordings → Bytes → ℕ → Result Bytes Bytes
  presign_get s key expires = elim (sdk.presign s.client s.bucket key expires) [
    | ok url ↦ ok url
    | err e ↦ err (codes "presign GET for " ++ location s.bucket key ++ codes ": " ++ e)
  ]
