-- ===== src/Streams/Recordings.antt =====
-- services/streams/recordings_handler.go: the listing of a channel's recordings.
pub mod Laws
use vidcast.Base.{
  ℕ, ◌*◌, ◌^◌, Bool, List, [], ◌∷◌, ◌++◌, Option, none, some, Bytes, codes, Result, ok, err,
  if◌then◌else◌,
}
use vidcast.Go.Fmt
use vidcast.Go.Strings.{contains_any}
use vidcast.Go.Http.{
  Request, Response, Json, Items, str, num, time, arr, obj, field, end, nil, item, one,
}
use vidcast.Streams.HttpJson.{write_json, write_error}
use vidcast.Streams.S3Client.{RecordingObject}

pub record Recording : Type 0 where
  pub key : Bytes
  pub url : Bytes
  pub recorded_at : ℕ
  pub size_bytes : ℕ

-- `recordingsAPI`.
pub record RecordingsApi : Type 0 where
  pub list_recordings : Bytes → Result Bytes (List RecordingObject)
  pub presign_get : Bytes → ℕ → Result Bytes Bytes

-- 15 minutes in nanoseconds.
abbrev pub recording_url_expiry : ℕ
recording_url_expiry = 15 * 60 * 10 ^ 9

abbrev pub not_configured : Bytes
not_configured = codes "VOD recording storage is not configured for this deployment"

-- `containsPathTraversal`.
unfoldable pub contains_path_traversal : Bytes → Bool
unfolding contains_any
contains_path_traversal s = contains_any s (codes "/\\")

abbrev pub to_recording : RecordingObject → Bytes → Recording
to_recording o url = record {
  key = o.key;
  url = url;
  recorded_at = o.last_modified;
  size_bytes = o.size_bytes;
}

-- The loop over the objects, with the recordings so far.
unfoldable pub presign_all :
    (Bytes → ℕ → Result Bytes Bytes)
    → List RecordingObject
    → List Recording
    → Result Bytes (List Recording)
presign_all presign [] recordings = ok recordings
presign_all presign (o ∷ os) recordings = elim (presign o.key recording_url_expiry) [
  | err e ↦ err e
  | ok url ↦ presign_all presign os (recordings ++ to_recording o url ∷ [])
]

abbrev recording_json : Recording → Json
recording_json r = obj (
    field (codes "key") (str r.key) (
      field (codes "url") (str r.url) (
        field (codes "recordedAt") (time r.recorded_at)
          (field (codes "sizeBytes") (num r.size_bytes) end))))

unfoldable pub recording_items : List Recording → Items
recording_items [] = nil
recording_items (r ∷ rs) = item (recording_json r) (recording_items rs)

abbrev pub recordings_body : List Recording → Json
recordings_body rs = one (codes "recordings") (arr (recording_items rs))

-- From the listing on: the listing, the signatures, the answer.
abbrev answer_signed : Result Bytes (List Recording) → Response
answer_signed (err e) = write_error 502 e
answer_signed (ok rs) = write_json 200 (recordings_body rs)

abbrev answer_listed : RecordingsApi → Result Bytes (List RecordingObject) → Response
answer_listed api (err e) = write_error 502 e
answer_listed api (ok os) = answer_signed (presign_all api.presign_get os [])

-- `newListRecordingsHandler`; `none` is a nil API.
unfoldable pub list_recordings_handler : Option RecordingsApi → Request → Response
unfolding presign_all contains_path_traversal Fmt.quote
list_recordings_handler none r = write_error 503 not_configured
list_recordings_handler (some api) r =
    if contains_path_traversal r.slug
    then write_error 400 (codes "invalid slug " ++ Fmt.quote r.slug)
    else answer_listed api (api.list_recordings r.slug)
