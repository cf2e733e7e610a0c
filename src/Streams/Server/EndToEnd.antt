-- ===== src/Streams/Server/EndToEnd.antt =====
-- main.go: a channel from the creation of its key to its first stream, over HTTP.
use vidcast.Base.{
  ◌≡◌, ap, ◌∙◌, ◌⊎◌, Bool, true, [], ◌++◌, none, some, arith, Bytes, codes, Result, ok, bytes_eq,
}
use vidcast.Go.Http.{Request, write_header}
use vidcast.Go.Hex
use vidcast.Streams.Auth.{is_rejected_lem, prefix}
use vidcast.Streams.HttpJson.{write_json}
use vidcast.Streams.Store.{Store, get, create_key, generate_key, find_by_key}
use vidcast.Streams.Store.Index.{IsValid, create_key-IsValid}
use vidcast.Streams.Store.Keys.{create_key_opens}
use vidcast.Streams.Store.Listing.{live_in}
use vidcast.Streams.StreamKeys.{create_stream_key, key_body}
use vidcast.Streams.MediaMtx.{AuthWebhookRequest, read_body, presented_key}
use vidcast.Streams.MediaMtx.Sessions.{auth_marks_live, auth_status}
use vidcast.Streams.Server.{Server, stream_key, auth_hook, endpoint, stream_key_routes, serve}

-- The key that is made of the random bytes.
abbrev pub new_key : Bytes → Bytes
new_key raw = codes "sk_" ++ Hex.encode raw

create_key-new_key :
    (sha256 : Bytes → Bytes) (s : Store) (slug raw : Bytes)
    → get s slug ≡ none
    → (create_key sha256 s slug (ok raw)).1 ≡ ok (new_key raw)
unfolding create_key generate_key get
create_key-new_key sha256 s slug raw h = ground (arith, h)

module _ (sha256 : Bytes → Bytes) (decode : Bytes → Bool → Result Bytes AuthWebhookRequest) where
  create_route :
      (api_key : Bytes) (s : Store) (r : Request) (raw : Bytes)
      → (api_key ≡ []) ⊎ (r.authorization ≡ prefix ++ api_key)
      → r.method ≡ codes "POST"
      → get s r.slug ≡ none
      → stream_key_routes sha256 decode (ok raw) api_key s r
        ≡ ((create_key sha256 s r.slug (ok raw)).0, write_json 201 (key_body r.slug (new_key raw)))
  unfolding stream_key_routes create_stream_key
  create_route api_key s r raw allowed m h =
      let made = create_key-new_key sha256 s r.slug raw h in
      let g = is_rejected_lem api_key r.authorization in ground (arith, made, g.1, allowed, m)

  -- When an authorized POST asks for the key of a slug that has no channel, the service answers 201
  -- with the slug and a key, and a publish request that then presents this key as its password is
  -- answered with 200 and makes the channel live.
  pub create_then_publish :
      (v : Server) (r q : Request) (req : AuthWebhookRequest) (slug raw : Bytes)
      → (later : Result Bytes Bytes) → IsValid v.store
      → (v.api_key ≡ []) ⊎ (r.authorization ≡ prefix ++ v.api_key)
      → r.method ≡ codes "POST"
      → endpoint r.segments ≡ stream_key slug
      → get v.store slug ≡ none
      → q.method ≡ codes "POST"
      → endpoint q.segments ≡ auth_hook
      → read_body decode q ≡ ok req
      → req.action ≡ codes "publish"
      → req.password ≡ new_key raw
      → let w = serve sha256 decode (ok raw) v r in
        let u = serve sha256 decode later w.0 q in
        (w.1 ≡ write_json 201 (key_body slug (new_key raw)))
        × (u.1 ≡ write_header 200)
        × (live_in u.0.store.channels slug ≡ true)
  unfolding serve
  create_then_publish v r q req slug raw later valid allowed m e fresh n d body act pw =
      let s = (create_key sha256 v.store slug (ok raw)).0 in
      let made = create_key-new_key sha256 v.store slug raw fresh in
      let route = create_route v.api_key v.store (record r { slug = slug }) raw allowed m fresh in
      let opens = (create_key_opens sha256 v.store slug (ok raw) (new_key raw) made).1 in
      let presented : presented_key req ≡ new_key raw = ground (arith, pw) in
      let found : find_by_key sha256 s (presented_key req) ≡ some slug =
        ap (find_by_key sha256 s) presented ∙ opens in
      let valid' = create_key-IsValid sha256 v.store slug (ok raw) valid in
      let status = auth_status sha256 decode s q req slug body act found in
      let live = (auth_marks_live sha256 decode s valid' q req slug body act found slug).0 in
      (
        ground (arith, e, route),
        ground (arith, e, route, n, d, status),
        ground (arith, e, route, n, d, live),
      )
