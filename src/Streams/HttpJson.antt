-- ===== src/Streams/HttpJson.antt =====
-- services/streams/httpjson.go: JSON responses, and the status of each error of the store.
use vidcast.Base.{ℕ, Option, none, some, Bytes, codes}
use vidcast.Go.Http.{Response, Json, str, json, one, application_json}
use vidcast.Streams.Store.{StoreError, channel_exists, channel_not_found, generate_key_failed}

-- `writeJSON`.
unfoldable pub write_json : ℕ → Json → Response
write_json status body = record {
  status = status;
  content_type = application_json;
  body = json body;
}

-- `writeError`; the error is given by its text.
unfoldable pub write_error : ℕ → Bytes → Response
unfolding write_json
write_error status message = write_json status (one (codes "error") (str message))

-- `err.Error()` of the store's errors.
abbrev pub message : StoreError → Bytes
message channel_exists = codes "channel already has a stream key"
message channel_not_found = codes "channel not found"
message (generate_key_failed e) = e

-- The cases of `writeStoreError`.
abbrev status_of : StoreError → ℕ
status_of channel_not_found = 404
status_of channel_exists = 409
status_of (generate_key_failed e) = 500

-- `writeStoreError`; `none` is a nil error and the result false, with nothing written.
unfoldable pub write_store_error : Option StoreError → Option Response
unfolding write_error
write_store_error none = none
write_store_error (some e) = some (write_error (status_of e) (message e))
