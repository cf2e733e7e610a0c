-- ===== src/Streams/Server/Revocation.antt =====
-- main.go: a key that has been revoked or rotated over HTTP, and a stream that still presents it.
use vidcast.Base.{
  ◌≡◌, refl, ◌≢◌, ◌⊎◌, Bool, [], ◌++◌, none, some, arith, Bytes, codes, Result, ok, bytes_eq,
}
use vidcast.Base.Dict.{lookup-delete}
use vidcast.Go.Http.{Request, write_header}
use vidcast.Streams.Auth.{is_rejected_lem, prefix}
use vidcast.Streams.HttpJson.{write_json}
use vidcast.Streams.Store.{Store, revoke_key, rotate_key, find_by_key, hash_key}
use vidcast.Streams.Store.Index.{IsValid, hash_of}
use vidcast.Streams.Store.Keys.{rotate_key_replaces}
use vidcast.Streams.StreamKeys.{revoke_stream_key, rotate_stream_key, key_body}
use vidcast.Streams.MediaMtx.{AuthWebhookRequest, read_body, presented_key}
use vidcast.Streams.MediaMtx.Sessions.{auth_otherwise}
use vidcast.Streams.Server.{Server, stream_key, auth_hook, endpoint, stream_key_routes, serve}

module _ (sha256 : Bytes → Bytes) (decode : Bytes → Bool → Result Bytes AuthWebhookRequest)
    (rand : Result Bytes Bytes) where
  revoke_route :
      (api_key : Bytes) (s : Store) (r : Request) (h : Bytes)
      → (api_key ≡ []) ⊎ (r.authorization ≡ prefix ++ api_key)
      → r.method ≡ codes "DELETE"
      → hash_of s.channels r.slug ≡ some h
      → stream_key_routes sha256 decode rand api_key s r
        ≡ ((revoke_key s r.slug).0, write_header 204)
  unfolding stream_key_routes revoke_stream_key revoke_key
  revoke_route api_key s r h allowed m owned =
      let g = is_rejected_lem api_key r.authorization in ground (arith, g.1, allowed, m, owned)

  rotate_route :
      (api_key : Bytes) (s : Store) (r : Request) (key : Bytes)
      → (api_key ≡ []) ⊎ (r.authorization ≡ prefix ++ api_key)
      → r.method ≡ codes "PUT"
      → (rotate_key sha256 s r.slug rand).1 ≡ ok key
      → stream_key_routes sha256 decode rand api_key s r
        ≡ ((rotate_key sha256 s r.slug rand).0, write_json 200 (key_body r.slug key))
  unfolding stream_key_routes rotate_stream_key
  rotate_route api_key s r key allowed m made =
      let g = is_rejected_lem api_key r.authorization in ground (arith, g.1, allowed, m, made)

  revoked-find :
      (s : Store) (slug key : Bytes)
      → hash_of s.channels slug ≡ some (hash_key sha256 key)
      → find_by_key sha256 (revoke_key s slug).0 key ≡ none
  unfolding find_by_key revoke_key
  revoked-find s slug key owned = grind (arith, owned, lookup-delete)

  module _ (v : Server) (r q : Request) (req : AuthWebhookRequest) (slug : Bytes)
      (valid : IsValid v.store)
      (allowed : (v.api_key ≡ []) ⊎ (r.authorization ≡ prefix ++ v.api_key))
      (where_ : endpoint r.segments ≡ stream_key slug)
      (owned : hash_of v.store.channels slug ≡ some (hash_key sha256 (presented_key req)))
      (method : q.method ≡ codes "POST") (hook : endpoint q.segments ≡ auth_hook)
      (body : read_body decode q ≡ ok req) (publish : req.action ≡ codes "publish") where
    -- After an authorized DELETE for a channel of a valid store, a publish request with the key
    -- that the channel had is answered with 401 and changes nothing; and so it is after an
    -- authorized PUT that answers with a new key, if this has another hash.
    pub old_key_refused :
        (r.method ≡ codes "DELETE"
          → let w = (serve sha256 decode rand v r).0 in
            serve sha256 decode rand w q ≡ (w, write_header 401))
        × ((key : Bytes)
            → r.method ≡ codes "PUT"
            → (rotate_key sha256 v.store slug rand).1 ≡ ok key
            → hash_key sha256 (presented_key req) ≢ hash_key sha256 key
            → let w = (serve sha256 decode rand v r).0 in
              serve sha256 decode rand w q ≡ (w, write_header 401))
    unfolding serve
    old_key_refused = (
      λ m.
          let old = hash_key sha256 (presented_key req) in
          let route =
            revoke_route v.api_key v.store (record r { slug = slug }) old allowed m owned in
          let refused =
            (auth_otherwise sha256 decode (revoke_key v.store slug).0 q).2 req body publish
              (revoked-find v.store slug (presented_key req) owned) in
          ground (arith, where_, route, method, hook, refused),
      λ key m made new.
          let old = hash_key sha256 (presented_key req) in
          let route =
            rotate_route v.api_key v.store (record r { slug = slug }) key allowed m made in
          let closed =
            (rotate_key_replaces sha256 v.store slug rand key old valid made owned).1
              (presented_key req) refl new in
          let refused =
            (auth_otherwise sha256 decode (rotate_key sha256 v.store slug rand).0 q).2 req body
              publish closed in
          ground (arith, where_, route, method, hook, refused),
    )
