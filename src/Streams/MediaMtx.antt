-- ===== src/Streams/MediaMtx.antt =====
-- services/streams/mediamtx_handler.go: the endpoints that MediaMTX calls. Each call of a method of
-- the store takes the mutex by itself, so other requests can run between two of them: a handler is
-- given as its phases, each on the store that it finds.
pub mod Paths
pub mod Sessions
pub mod Races
pub mod Lifecycle
pub mod Elsewhere
use vidcast.Base.{
  ℕ, suc, Bool, true, false, not, [], ◌∷◌, Option, none, some, Bytes, codes, Result, ok, err,
  if◌then◌else◌, ◌==◌, bytes_eq, nat_eq, length, take, ltb,
}
use vidcast.Go.Strings.{trim, last_index, drop}
use vidcast.Go.Http.{Request, Response, write_header}
use vidcast.Streams.Store.{Store, find_by_key, get, set_live}
use vidcast.Streams.HttpJson.{write_error}

pub record AuthWebhookRequest : Type 0 where
  pub action : Bytes
  pub path : Bytes
  pub password : Bytes

-- `lastPathSegment`.
unfoldable pub last_path_segment : Bytes → Bytes
unfolding trim last_index drop
last_path_segment path =
    let trimmed = trim (λ c. c == b'/') path in
    elim (last_index b'/' trimmed) [ some i ↦ drop (suc i) trimmed | none ↦ trimmed ]

abbrev pub body_limit : ℕ
body_limit = 4096

-- What is left to do: the response is known, or a channel is still to be marked.
pub data Phase : Type 0 where
  answered : Response → Phase
  marking : Bytes → Phase

-- The end of both handlers; the error of `SetLive` is dropped.
unfoldable pub finish : Bool → Store → Phase → Store × Response
finish live s (answered response) = (s, response)
finish live s (marking slug) = ((set_live s slug live).0, write_header 200)

-- The key of a publish request: the password, or else the end of the path.
abbrev pub presented_key : AuthWebhookRequest → Bytes
presented_key req = if req.password == [] then last_path_segment req.path else req.password

-- `decode` is `json.NewDecoder(…).Decode` on the bytes that `MaxBytesReader` lets through, and
-- whether it cuts the rest off with an error.
unfoldable pub read_body :
    (Bytes → Bool → Result Bytes AuthWebhookRequest) → Request → Result Bytes AuthWebhookRequest
read_body decode r = decode (take body_limit r.body) (ltb body_limit (length r.body))

module _ (sha256 : Bytes → Bytes) where
  -- `resolveChannelFromPath`, its two reads on the stores `s` and `t`.
  unfoldable pub resolve_channel_from_path : Store → Store → Bytes → Option Bytes
  resolve_channel_from_path s t path =
      let segment = last_path_segment path in
      elim (find_by_key sha256 s segment) [
        | some slug ↦ some slug
        | none ↦ elim (get t segment) [ some ch ↦ some ch.slug | none ↦ none ]
      ]

module _ (sha256 : Bytes → Bytes) (decode : Bytes → Bool → Result Bytes AuthWebhookRequest) where
  abbrev look_up_key : Store → AuthWebhookRequest → Phase
  look_up_key s req = elim (find_by_key sha256 s (presented_key req)) [
    | none ↦ answered (write_header 401)
    | some slug ↦ marking slug
  ]

  -- `newMediaMTXAuthHandler` up to `FindByKey`.
  unfoldable pub auth_find : Store → Request → Phase
  auth_find s r = elim (read_body decode r) [
    | err e ↦ answered (write_error 400 e)
    | ok req ↦
        if not (req.action == codes "publish")
        then answered (write_header 200)
        else look_up_key s req
  ]

  -- `newMediaMTXAuthHandler` with nothing in between.
  unfoldable pub auth : Store → Request → Store × Response
  unfolding auth_find finish
  auth s r = finish true s (auth_find s r)

  -- `newMediaMTXUnpublishHandler` up to `SetLive`.
  unfoldable pub unpublish_find : Store → Store → Request → Phase
  unfolding resolve_channel_from_path
  unpublish_find s t r = elim (read_body decode r) [
    | err e ↦ answered (write_error 400 e)
    | ok req ↦ elim (resolve_channel_from_path sha256 s t req.path) [
      | some slug ↦ marking slug
      | none ↦ answered (write_header 200)
    ]
  ]

  -- `newMediaMTXUnpublishHandler` with nothing in between.
  unfoldable pub unpublish : Store → Request → Store × Response
  unfolding unpublish_find finish
  unpublish s r = finish false s (unpublish_find s s r)
