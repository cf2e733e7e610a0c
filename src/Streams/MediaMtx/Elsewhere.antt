-- ===== src/Streams/MediaMtx/Elsewhere.antt =====
-- mediamtx_handler.go: a stream that presents the key of one channel under the path of another.
use vidcast.Base.{
  ◌≡◌, ◌∙◌, ap, ◌≢◌, Bool, true, false, [], none, some, arith, Bytes, codes, Result, ok, bytes_eq,
}
use vidcast.Go.Http.{Request, write_header}
use vidcast.Go.FilePath.{slash}
use vidcast.Go.Strings.{Lacks}
use vidcast.Streams.Store.{Store, find_by_key, set_live, hash_key}
use vidcast.Streams.Store.Index.{IsValid, hash_of, set_live-IsValid}
use vidcast.Streams.Store.Listing.{live_in}
use vidcast.Streams.MediaMtx.{
  AuthWebhookRequest, read_body, auth, unpublish, resolve_channel_from_path, presented_key,
}
use vidcast.Streams.MediaMtx.Sessions.{
  live_in-set_live, find_by_key-set_live, hash_of-set_live, unpublish-set_live, auth_status,
}
use vidcast.Streams.MediaMtx.Lifecycle.{auth-set_live, resolve-slug}

module _ (sha256 : Bytes → Bytes) (decode : Bytes → Bool → Result Bytes AuthWebhookRequest) where
  -- A key also opens the path of another channel: a publish request that presents the key of one channel as its password
  -- is answered with 200 although its path is the slug of another channel, and it is the key's
  -- channel that goes live. The hook at the end of the stream then takes the other channel offline,
  -- and the key's channel is still live. The store is valid, and the slug is not a key.
  pub publish_elsewhere :
      (s : Store)
      → IsValid s
      → (r q : Request) (req end_req : AuthWebhookRequest) (mine other h : Bytes)
      → read_body decode r ≡ ok req
      → read_body decode q ≡ ok end_req
      → req.action ≡ codes "publish"
      → req.password ≢ []
      → req.path ≡ other
      → end_req.path ≡ other
      → mine ≢ other
      → other ≢ []
      → Lacks slash other
      → find_by_key sha256 s other ≡ none
      → hash_of s.channels other ≡ some h
      → find_by_key sha256 s req.password ≡ some mine
      → ((auth sha256 decode s r).1 ≡ write_header 200)
        × (live_in (unpublish sha256 decode (auth sha256 decode s r).0 q).0.channels mine ≡ true)
        × (live_in (unpublish sha256 decode (auth sha256 decode s r).0 q).0.channels other ≡ false)
  publish_elsewhere s v r q req end_req mine other h e d act pw path same ne n flat no_key owned f =
      let presented : presented_key req ≡ req.password = ground (arith, pw) in
      let opens : find_by_key sha256 s (presented_key req) ≡ some mine =
        ap (find_by_key sha256 s) presented ∙ f in
      let my_hash = v.sound (hash_key sha256 req.password) mine (unfold find_by_key in f) in
      let after = auth-set_live sha256 decode s r req mine e act opens in
      let t = (set_live s mine true).0 in
      let w : IsValid t = set_live-IsValid s v mine true in
      let owned' : hash_of t.channels other ≡ some h = hash_of-set_live s mine true other ∙ owned in
      let resolved : resolve_channel_from_path sha256 t t end_req.path ≡ some other =
        ap (resolve_channel_from_path sha256 t t) same
        ∙ resolve-slug sha256 decode t other h w n flat
            (find_by_key-set_live sha256 s mine true other ∙ no_key) owned' in
      let ended = unpublish-set_live sha256 decode t q end_req other d resolved in
      (
        auth_status sha256 decode s r req mine e act opens,
        rw after (
            ground (
              arith,
              ne,
              ended,
              live_in-set_live t other false mine w h owned',
              live_in-set_live s mine true mine v (hash_key sha256 req.password) my_hash,
            )),
        rw after (ground (arith, ended, live_in-set_live t other false other w h owned')),
      )
