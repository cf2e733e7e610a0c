-- ===== src/Tests/Recordings.antt =====
-- The recorder and the listing of recordings.
use vidcast.Base.{
  ℕ, ◌≡◌, refl, ◌↔◌, true, none, some, List, [], ◌∷◌, arith, Bytes, codes, ok, err, nat_eq,
  bytes_eq, if◌then◌else◌, ◌==◌,
}
use vidcast.Go.Http.{Request}
use vidcast.Go.FilePath
use vidcast.Go.FilePath.{dot_dot}
use vidcast.Go.FilePath.Laws.{IsPlain}
use vidcast.Go.Strings.{has_prefix}
use vidcast.Recorder.Env.Laws.{required_vars}
use vidcast.Recorder.Uploader.{object_key}
use vidcast.Recorder.Main.{Platform, World, main}
use vidcast.Recorder.Main.Durable.{main-Outcome, Outcome}
use vidcast.Streams.S3Client.{S3Recordings, S3Object, list_prefix, to_recording}
use vidcast.Streams.HttpJson.{write_json}
use vidcast.Streams.Recordings.{
  RecordingsApi, list_recordings_handler, contains_path_traversal, recordings_body,
}
use vidcast.Streams.Recordings.Laws.{list_recordings_handler_lem, zip_urls}
use vidcast.Vod.{listed_iff, dot_lists_all}
use vidcast.Tests.{alice}

abbrev file : Bytes
file = codes "/rec/1.mp4"

abbrev env : Bytes → Bytes
env k =
    if k == codes "MTX_PATH"
    then alice
    else if k == codes "MTX_SEGMENT_PATH"
    then file
    else if k == codes "S3_UPLOAD_TIMEOUT"
    then []
    else codes "x"

-- Floats are their texts; the storage is the list of the keys it has accepted.
abbrev platform : Platform (List Bytes) Bytes
platform = record {
  parse_duration = λ raw. err (codes "invalid duration");
  order = required_vars;
  parse_float = λ raw. ok raw;
  format_float = λ d. d;
  put_object = λ o t input keys. (input.key ∷ keys, ok tt);
  no_such_file = codes "no such file or directory";
  unopenable = λ path. none;
  unremovable = λ path. none;
}

abbrev disk : World (List Bytes)
disk = record { files = (file, codes "content") ∷ []; remote = [] }

alice-IsPlain : IsPlain alice
alice-IsPlain = record {
  flat = omega arith;
  nonempty = λ e. cc;
  not_dot = λ e. cc;
  not_dot_dot = λ e. cc;
}

file-IsPlain : IsPlain (FilePath.base file)
unfolding FilePath.base nat_eq bytes_eq
file-IsPlain = record {
  flat = omega arith;
  nonempty = λ e. cc;
  not_dot = λ e. cc;
  not_dot_dot = λ e. cc;
}

main-Outcome_example : Outcome platform env disk (main platform env disk)
main-Outcome_example = main-Outcome platform env disk

listed_iff_example :
    (has_prefix (object_key alice file) (list_prefix alice) ≡ true) ↔ (alice ≡ alice)
listed_iff_example = listed_iff alice file alice-IsPlain file-IsPlain alice alice-IsPlain

dot_lists_all_example : has_prefix (object_key alice file) (list_prefix (codes ".")) ≡ true
dot_lists_all_example = (dot_lists_all alice file alice-IsPlain file-IsPlain).1

abbrev object : ℕ → S3Object
object n = record { key = some (n ∷ []); size = some 100; last_modified = none }

abbrev bucket : S3Recordings
bucket = record {
  client = record {
    region = codes "us-east-1";
    base_endpoint = codes "s3";
    use_path_style = true;
    credentials = record { access_key_id = codes "id"; secret_access_key = codes "key" };
  };
  bucket = codes "vods";
}

abbrev api : RecordingsApi
api = record {
  list_recordings = λ slug. ok (to_recording (object 1) ∷ []);
  presign_get = λ k n. ok k;
}

abbrev listing : Request
listing = record {
  method = codes "GET";
  segments = codes "channels" ∷ alice ∷ codes "recordings" ∷ [];
  authorization = [];
  query = λ k. [];
  body = [];
  slug = alice;
}

list_recordings_handler_lem_example :
    list_recordings_handler (some api) listing
    ≡ write_json 200 (recordings_body (zip_urls (to_recording (object 1) ∷ []) ((1 ∷ []) ∷ [])))
unfolding contains_path_traversal bytes_eq nat_eq
list_recordings_handler_lem_example =
    (list_recordings_handler_lem api listing).4 (to_recording (object 1) ∷ []) ((1 ∷ []) ∷ []) refl
      refl (refl, tt)
