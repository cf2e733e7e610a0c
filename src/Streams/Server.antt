-- ===== src/Streams/Server.antt =====
-- services/streams/main.go and the register functions: the routes, and one request at a time.
pub mod Safety
pub mod Secrecy
pub mod EndToEnd
pub mod Revocation
use vidcast.Base.{
  ℕ, Bool, true, false, not, ◌&&◌, ◌||◌, List, [], ◌∷◌, Option, none, some, Bytes, codes, Result,
  ok, err, if◌then◌else◌, ◌==◌, bytes_eq,
}
use vidcast.Go.Http.{Request, Response, http_error}
use vidcast.Streams.Store.{Store, new_store}
use vidcast.Streams.Auth.{require_auth}
use vidcast.Streams.StreamKeys.{
  create_stream_key, get_stream_key, rotate_stream_key, revoke_stream_key,
}
use vidcast.Streams.MediaMtx.{AuthWebhookRequest, auth, unpublish}
use vidcast.Streams.Channels.{list_channels_handler, root_handler, health_handler}
use vidcast.Streams.Recordings.{RecordingsApi, list_recordings_handler}
use vidcast.Streams.S3Client.{Sdk, load_s3_config, new_s3_recordings, list_recordings, presign_get}

-- `getEnv`.
unfoldable pub get_env : (Bytes → Bytes) → Bytes → Bytes → Bytes
get_env getenv key fallback = let v = getenv key in if v == [] then fallback else v

-- What `main` sets up before it listens.
pub record Server : Type 0 where
  pub version : Bytes
  pub addr : Bytes
  pub api_key : Bytes
  pub recordings : Option RecordingsApi
  pub store : Store

-- `main` up to `ListenAndServe`.
unfoldable pub start : Sdk → (Bytes → Bytes) → Server
unfolding get_env
start sdk getenv = record {
  version = get_env getenv (codes "VERSION") (codes "dev");
  addr = get_env getenv (codes "ADDR") (codes ":8080");
  api_key = get_env getenv (codes "API_KEY") [];
  recordings = elim (load_s3_config getenv) [
    | none ↦ none
    | some cfg ↦
        let s3 = new_s3_recordings cfg in
        some (record { list_recordings = list_recordings sdk s3; presign_get = presign_get sdk s3 })
  ];
  store = new_store;
}

-- The paths of the patterns on the mux.
pub data Endpoint : Type 0 where
  root healthz channels auth_hook unpublish_hook unknown : Endpoint
  stream_key recordings_of : Bytes → Endpoint

unfoldable pub endpoint : List Bytes → Endpoint
endpoint (a ∷ []) =
    if a == []
    then root
    else if a == codes "healthz"
    then healthz
    else if a == codes "channels"
    then channels
    else unknown
endpoint (a ∷ b ∷ []) =
    if a == codes "mediamtx" && b == codes "auth"
    then auth_hook
    else if a == codes "mediamtx" && b == codes "unpublish"
    then unpublish_hook
    else unknown
endpoint (a ∷ b ∷ c ∷ []) =
    if a == codes "channels" && not (b == []) && c == codes "stream-key"
    then stream_key b
    else if a == codes "channels" && not (b == []) && c == codes "recordings"
    then recordings_of b
    else unknown
endpoint _ = unknown

-- A GET pattern matches HEAD too.
abbrev pub is_get : Bytes → Bool
is_get m = m == codes "GET" || m == codes "HEAD"

abbrev pub method_not_allowed : Response
method_not_allowed = http_error (codes "Method Not Allowed") 405

abbrev pub not_found : Response
not_found = http_error (codes "404 page not found") 404

abbrev get_only : Bytes → Response → Response
get_only m answer = if is_get m then answer else method_not_allowed

module _ (sha256 : Bytes → Bytes) (decode : Bytes → Bool → Result Bytes AuthWebhookRequest)
    (rand : Result Bytes Bytes) where
  -- The four routes of `registerStreamKeyRoutes`.
  unfoldable pub stream_key_routes : Bytes → Store → Request → Store × Response
  unfolding require_auth
  stream_key_routes api_key s r =
      if r.method == codes "POST"
      then require_auth api_key (create_stream_key sha256 rand) s r
      else if is_get r.method
      then require_auth api_key get_stream_key s r
      else if r.method == codes "PUT"
      then require_auth api_key (rotate_stream_key sha256 rand) s r
      else if r.method == codes "DELETE"
      then require_auth api_key revoke_stream_key s r
      else (s, method_not_allowed)

  -- What the mux calls for an endpoint.
  unfoldable pub dispatch : Server → Request → Endpoint → Store × Response
  unfolding stream_key_routes list_channels_handler
  dispatch v r root = (v.store, get_only r.method (root_handler v.version))
  dispatch v r healthz = (v.store, get_only r.method health_handler)
  dispatch v r channels = (v.store, get_only r.method (list_channels_handler v.store r))
  dispatch v r auth_hook =
      if r.method == codes "POST"
      then auth sha256 decode v.store r
      else (v.store, method_not_allowed)
  dispatch v r unpublish_hook =
      if r.method == codes "POST"
      then unpublish sha256 decode v.store r
      else (v.store, method_not_allowed)
  dispatch v r (stream_key slug) = stream_key_routes v.api_key v.store (record r { slug = slug })
  dispatch v r (recordings_of slug) =
      (v.store, get_only r.method (list_recordings_handler v.recordings (record r { slug = slug })))
  dispatch v r unknown = (v.store, not_found)

  -- One request.
  unfoldable pub serve : Server → Request → Server × Response
  unfolding dispatch endpoint
  serve v r =
      let (s, answer) = dispatch v r (endpoint r.segments) in (record v { store = s }, answer)
