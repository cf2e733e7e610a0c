-- ===== src/Streams/StreamKeys.antt =====
-- services/streams/streamkey_handler.go: the stream-key endpoints. `rand` is what `rand.Read` yields
-- while the request is served.
pub mod Answers
use vidcast.Base.{[], Option, none, some, Bytes, codes, Result, ok, err}
use vidcast.Go.Http.{Request, Response, Json, str, bool, obj, field, end, write_header}
use vidcast.Streams.Store.{
  Store, StoreError, channel_not_found, Channel, create_key, rotate_key, revoke_key, get,
}
use vidcast.Streams.HttpJson.{write_json, write_store_error}

-- `if writeStoreError(w, err) { return }` and what follows it.
abbrev pub unless_error : Option StoreError → Response → Response
unless_error e next = elim (write_store_error e) [ some answer ↦ answer | none ↦ next ]

abbrev pub error_of {ℓ} : {A : Type ℓ} → Result StoreError A → Option StoreError
error_of (ok a) = none
error_of (err e) = some e

-- The key, or the empty string beside an error.
abbrev pub key_of : Result StoreError Bytes → Bytes
key_of (ok key) = key
key_of (err e) = []

abbrev pub key_body : Bytes → Bytes → Json
key_body slug key = obj (field (codes "slug") (str slug) (field (codes "streamKey") (str key) end))

abbrev pub channel_body : Channel → Json
channel_body ch = obj (
    field (codes "slug") (str ch.slug)
      (field (codes "hasKey") (bool ch.has_key) (field (codes "live") (bool ch.live) end)))

-- `newGetStreamKeyHandler`.
unfoldable pub get_stream_key : Store → Request → Store × Response
unfolding write_store_error write_json get
get_stream_key s r = elim (get s r.slug) [
  | none ↦ (s, unless_error (some channel_not_found) (write_header 200))
  | some ch ↦ (s, write_json 200 (channel_body ch))
]

-- `newRevokeStreamKeyHandler`.
unfoldable pub revoke_stream_key : Store → Request → Store × Response
unfolding write_store_error write_json
revoke_stream_key s r =
    let (t, res) = revoke_key s r.slug in (t, unless_error (error_of res) (write_header 204))

module _ (sha256 : Bytes → Bytes) (rand : Result Bytes Bytes) where
  -- `newCreateStreamKeyHandler`.
  unfoldable pub create_stream_key : Store → Request → Store × Response
  unfolding write_store_error write_json
  create_stream_key s r =
      let (t, res) = create_key sha256 s r.slug rand in
      (t, unless_error (error_of res) (write_json 201 (key_body r.slug (key_of res))))

  -- `newRotateStreamKeyHandler`.
  unfoldable pub rotate_stream_key : Store → Request → Store × Response
  unfolding write_store_error write_json
  rotate_stream_key s r =
      let (t, res) = rotate_key sha256 s r.slug rand in
      (t, unless_error (error_of res) (write_json 200 (key_body r.slug (key_of res))))
