-- ===== src/Streams/Server/Secrecy.antt =====
-- main.go: what the answers to GET requests can show.
use vidcast.Base.{◌≡◌, refl, ap, Bool, true, arith, Bytes, Result, bytes_eq}
use vidcast.Go.Http.{Request}
use vidcast.Streams.Store.{Store, get}
use vidcast.Streams.Store.Index.{IsValid}
use vidcast.Streams.Store.Listing.{live_in}
use vidcast.Streams.Store.Extensional.{list_live-ext}
use vidcast.Streams.StreamKeys.{get_stream_key}
use vidcast.Streams.MediaMtx.{AuthWebhookRequest}
use vidcast.Streams.Server.{
  Server, Endpoint, stream_key, channels, auth_hook, unpublish_hook, endpoint, is_get,
  stream_key_routes, dispatch, serve,
}

live_in-get :
    (s t : Store) (k : Bytes) → get s k ≡ get t k → live_in s.channels k ≡ live_in t.channels k
unfolding get
live_in-get s t k h = ground arith

get_stream_key-get :
    (s t : Store) (r : Request)
    → get s r.slug ≡ get t r.slug
    → ((get_stream_key s r).0 ≡ s) × ((get_stream_key s r).1 ≡ (get_stream_key t r).1)
unfolding get_stream_key
get_stream_key-get s t r h = ground (arith, h)

module _ (sha256 : Bytes → Bytes) (decode : Bytes → Bool → Result Bytes AuthWebhookRequest)
    (rand : Result Bytes Bytes) where
  get_routes :
      (api_key : Bytes) (s t : Store) (r : Request)
      → is_get r.method ≡ true
      → get s r.slug ≡ get t r.slug
      → ((stream_key_routes sha256 decode rand api_key s r).0 ≡ s)
        × ((stream_key_routes sha256 decode rand api_key s r).1
            ≡ (stream_key_routes sha256 decode rand api_key t r).1)
  unfolding stream_key_routes
  get_routes api_key s t r g h =
      let (keeps, same) = get_stream_key-get s t r h in ground (arith, keeps, same)

  dispatch-get :
      (v : Server) (t : Store) (r : Request) (e : Endpoint)
      → IsValid v.store
      → IsValid t
      → ((k : Bytes) → get v.store k ≡ get t k)
      → is_get r.method ≡ true
      → ((dispatch sha256 decode rand v r e).0 ≡ v.store)
        × ((dispatch sha256 decode rand v r e).1
            ≡ (dispatch sha256 decode rand (record v { store = t }) r e).1)
  unfolding dispatch
  dispatch-get v t r channels u w h g =
      (refl, ground (arith, list_live-ext v.store t u w (λ k. live_in-get v.store t k (h k))))
  dispatch-get v t r (stream_key slug) u w h g =
      get_routes v.api_key v.store t (record r { slug = slug }) g (h slug)
  dispatch-get v t r auth_hook u w h g = (ground arith, ground arith)
  dispatch-get v t r unpublish_hook u w h g = (ground arith, ground arith)
  dispatch-get v t r _ u w h g = (refl, refl)

  -- No answer to a GET or HEAD request depends on a stream key or its hash: when two valid stores
  -- read the same for every slug, whether a key is set and the live flag included, the service
  -- answers such a request alike from both. And no such request changes the state.
  pub serve-get :
      (v : Server) (t : Store) (r : Request)
      → IsValid v.store
      → IsValid t
      → ((k : Bytes) → get v.store k ≡ get t k)
      → is_get r.method ≡ true
      → ((serve sha256 decode rand v r).0 ≡ v)
        × ((serve sha256 decode rand v r).1
            ≡ (serve sha256 decode rand (record v { store = t }) r).1)
  unfolding serve
  serve-get v t r u w h g =
      let (keeps, same) = dispatch-get v t r (endpoint r.segments) u w h g in
      (ap (λ s. record v { store = s }) keeps, same)
