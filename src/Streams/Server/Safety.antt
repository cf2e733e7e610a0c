-- ===== src/Streams/Server/Safety.antt =====
-- main.go and the handlers: what every request keeps.
use vidcast.Base.{
  ◌≡◌, ◌≢◌, Bool, true, false, ◌||◌, ◌++◌, List, [], ◌∷◌, arith, Bytes, codes, Result,
  if◌then◌else◌, ◌==◌, bytes_eq, if_cases, subst, sym,
}
use vidcast.Go.Http.{Request, Response}
use vidcast.Streams.Auth.{require_auth, is_rejected, is_rejected_lem, prefix, unauthorized}
use vidcast.Streams.HttpJson.{write_error}
use vidcast.Streams.Store.{Store}
use vidcast.Streams.Store.Index.{
  IsValid, create_key-IsValid, rotate_key-IsValid, revoke_key-IsValid, set_live-IsValid,
  new_store-IsValid,
}
use vidcast.Streams.StreamKeys.{
  create_stream_key, get_stream_key, rotate_stream_key, revoke_stream_key,
}
use vidcast.Streams.S3Client.{Sdk}
use vidcast.Streams.MediaMtx.{AuthWebhookRequest, Phase, answered, marking, finish, auth, unpublish}
use vidcast.Streams.Server.{
  Server, start, Endpoint, stream_key, auth_hook, unpublish_hook, endpoint, is_get,
  method_not_allowed, stream_key_routes, dispatch, serve,
}

finish-IsValid : (live : Bool) (s : Store) (p : Phase) → IsValid s → IsValid (finish live s p).0
unfolding finish
finish-IsValid live s (answered response) v = v
finish-IsValid live s (marking slug) v = set_live-IsValid s v slug live

-- A guarded handler either refuses and leaves the state alone, or runs.
require_auth_cases {ℓ} :
    (P : Store × Response → Type ℓ) (api_key : Bytes) (fn : Store → Request → Store × Response)
    → (s : Store) (r : Request) → P (s, write_error 401 unauthorized)
    → P (fn s r)
    → P (require_auth api_key fn s r)
unfolding require_auth
require_auth_cases P api_key fn s r refused run_it =
    if_cases P (api_key == []) (fn s r)
      (if is_rejected api_key r.authorization then (s, write_error 401 unauthorized) else fn s r)
      run_it
      (if_cases P (is_rejected api_key r.authorization) (s, write_error 401 unauthorized) (fn s r)
        refused run_it)

-- The store after a request is valid.
abbrev KeepsValid : Store × Response → Type 0
KeepsValid q = IsValid q.0

get_stream_key_state : (s : Store) (r : Request) → (get_stream_key s r).0 ≡ s
unfolding get_stream_key
get_stream_key_state s r = ground arith

module _ (sha256 : Bytes → Bytes) (decode : Bytes → Bool → Result Bytes AuthWebhookRequest)
    (rand : Result Bytes Bytes) where
  -- With an API key configured, a request for a stream key whose Authorization header is not the
  -- word Bearer, a space and this key changes nothing and is answered with 401, or with 405 where
  -- its method is none of the four.
  pub serve-unauthorized :
      (v : Server) (r : Request) (slug : Bytes)
      → v.api_key ≢ []
      → r.authorization ≢ prefix ++ v.api_key
      → endpoint r.segments ≡ stream_key slug
      → ((serve sha256 decode rand v r).0 ≡ v)
        × ((serve sha256 decode rand v r).1 ≡ (
            if is_get r.method
              || r.method == codes "POST"
              || r.method == codes "PUT"
              || r.method == codes "DELETE"
            then write_error 401 unauthorized
            else method_not_allowed))
  unfolding serve
  serve-unauthorized v r slug key header e =
      let g = is_rejected_lem v.api_key r.authorization in
      (ground (arith, e, g.0), ground (arith, e, g.0))

  stream_key_routes-IsValid :
      (api_key : Bytes) (s : Store) (r : Request)
      → IsValid s
      → IsValid (stream_key_routes sha256 decode rand api_key s r).0
  unfolding stream_key_routes
  stream_key_routes-IsValid api_key s r v =
      let guarded = λ (fn : Store → Request → Store × Response) (w : IsValid (fn s r).0).
        require_auth_cases KeepsValid api_key fn s r v w in
      if_cases KeepsValid _ _ _
        (guarded (create_stream_key sha256 rand)
          (unfold create_stream_key in create_key-IsValid sha256 s r.slug rand v))
        (if_cases KeepsValid _ _ _
          (guarded get_stream_key (subst IsValid (sym (get_stream_key_state s r)) v))
          (if_cases KeepsValid _ _ _
            (guarded (rotate_stream_key sha256 rand)
              (unfold rotate_stream_key in rotate_key-IsValid sha256 s r.slug rand v))
            (if_cases KeepsValid _ _ _
              (guarded revoke_stream_key
                (unfold revoke_stream_key in revoke_key-IsValid s v r.slug))
              v)))

  dispatch-IsValid :
      (v : Server) (r : Request) (e : Endpoint)
      → IsValid v.store
      → IsValid (dispatch sha256 decode rand v r e).0
  unfolding dispatch auth unpublish
  dispatch-IsValid v r (stream_key slug) w =
      stream_key_routes-IsValid v.api_key v.store (record r { slug = slug }) w
  dispatch-IsValid v r auth_hook w = if_cases KeepsValid _ _ _ (finish-IsValid true v.store _ w) w
  dispatch-IsValid v r unpublish_hook w =
      if_cases KeepsValid _ _ _ (finish-IsValid false v.store _ w) w
  dispatch-IsValid v r _ w = w

abbrev pub Served : Type 0
Served = Request × Result Bytes Bytes

module _ (sha256 : Bytes → Bytes) (decode : Bytes → Bool → Result Bytes AuthWebhookRequest) where
  -- Requests one after another, each with what `rand.Read` yields for it.
  unfoldable pub serve_all : Server → List Served → Server
  serve_all v [] = v
  serve_all v ((r, rand) ∷ rs) = serve_all (serve sha256 decode rand v r).0 rs

  serve_all-IsValid :
      (v : Server) (rs : List Served) → IsValid v.store → IsValid (serve_all v rs).store
  unfolding serve_all serve
  serve_all-IsValid v [] w = w
  serve_all-IsValid v ((r, rand) ∷ rs) w =
      serve_all-IsValid (serve sha256 decode rand v r).0 rs
        (dispatch-IsValid sha256 decode rand v r (endpoint r.segments) w)

  -- From the start of the service on, whatever requests come, the store is valid: no map holds a key
  -- twice, records are stored under their slug, and an entry of the key index names a channel that
  -- exists and whose current key has this hash.
  pub serve_all-start-IsValid :
      (sdk : Sdk) (getenv : Bytes → Bytes) (rs : List Served)
      → IsValid (serve_all (start sdk getenv) rs).store
  serve_all-start-IsValid sdk getenv rs =
      serve_all-IsValid (start sdk getenv) rs (unfold start in new_store-IsValid)
