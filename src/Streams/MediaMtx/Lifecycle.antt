-- ===== src/Streams/MediaMtx/Lifecycle.antt =====
-- mediamtx_handler.go: a stream from its publish request to the unpublish hook, in both ways of
-- presenting the key, and what other requests in between can do to it.
use vidcast.Base.{
  ◌≡◌, ◌∙◌, ap, ◌≢◌, Bool, true, false, [], ◌∷◌, ◌++◌, none, some, arith, Bytes, codes, Result, ok,
  if◌then◌else◌, ◌==◌, bytes_eq,
}
use vidcast.Go.Http.{Request}
use vidcast.Go.FilePath.{slash}
use vidcast.Go.Strings.{Lacks}
use vidcast.Streams.Store.{Store, find_by_key, get, set_live, hash_key}
use vidcast.Streams.Store.Index.{IsValid, hash_of, set_live-IsValid}
use vidcast.Streams.Store.Listing.{live_in}
use vidcast.Streams.MediaMtx.{
  AuthWebhookRequest, read_body, presented_key, auth, unpublish, resolve_channel_from_path,
}
use vidcast.Streams.MediaMtx.Paths.{last_path_segment_lem, last_path_segment-flat}
use vidcast.Streams.MediaMtx.Sessions.{
  live_in-set_live, find_by_key-set_live, hash_of-set_live, unpublish-set_live,
}

module _ (sha256 : Bytes → Bytes) (decode : Bytes → Bool → Result Bytes AuthWebhookRequest) where
  pub auth-set_live :
      (s : Store) (r : Request) (req : AuthWebhookRequest) (slug : Bytes)
      → read_body decode r ≡ ok req
      → req.action ≡ codes "publish"
      → find_by_key sha256 s (presented_key req) ≡ some slug
      → (auth sha256 decode s r).0 ≡ (set_live s slug true).0
  unfolding auth
  auth-set_live s r req slug e p f = ground (arith, e, p, f)

  -- The hook after a publish request of the same stream, once the path resolves to the channel.
  offline_again :
      (s : Store) (q : Request) (end_req : AuthWebhookRequest) (slug h : Bytes)
      → IsValid s
      → hash_of s.channels slug ≡ some h
      → read_body decode q ≡ ok end_req
      → resolve_channel_from_path sha256
          (set_live s slug true).0
          (set_live s slug true).0
          end_req.path
        ≡ some slug
      → (k : Bytes)
      → live_in (unpublish sha256 decode (set_live s slug true).0 q).0.channels k
        ≡ (if k == slug then false else live_in s.channels k)
  offline_again s q end_req slug h v owned e res k =
      let t = (set_live s slug true).0 in
      let w : IsValid t = set_live-IsValid s v slug true in
      let later : hash_of t.channels slug ≡ some h = hash_of-set_live s slug true slug ∙ owned in
      ground (
        arith,
        unpublish-set_live sha256 decode t q end_req slug e res,
        live_in-set_live t slug false k w h later,
        live_in-set_live s slug true k v h owned,
      )

  resolve-path :
      (s : Store) (p key slug : Bytes)
      → key ≢ []
      → Lacks slash key
      → find_by_key sha256 s key ≡ some slug
      → resolve_channel_from_path sha256 s s (p ++ slash ∷ key) ≡ some slug
  unfolding resolve_channel_from_path
  resolve-path s p key slug n flat f = ground (arith, last_path_segment_lem p key n flat, f)

  pub resolve-slug :
      (s : Store) (slug h : Bytes)
      → IsValid s
      → slug ≢ []
      → Lacks slash slug
      → find_by_key sha256 s slug ≡ none
      → hash_of s.channels slug ≡ some h
      → resolve_channel_from_path sha256 s s slug ≡ some slug
  unfolding resolve_channel_from_path get
  resolve-slug s slug h v n flat f owned =
      grind (arith, last_path_segment-flat slug n flat, f, owned, v.slugs slug)

  -- A stream that presents its key at the end of its path makes the channel live, and the hook with
  -- the same path takes it offline again; the live flags of the other channels stay. The store is
  -- valid, and no other request comes in between.
  pub stream_by_path :
      (s : Store)
      → IsValid s
      → (r q : Request) (req end_req : AuthWebhookRequest) (p key slug : Bytes)
      → read_body decode r ≡ ok req
      → read_body decode q ≡ ok end_req
      → req.action ≡ codes "publish"
      → req.password ≡ []
      → req.path ≡ p ++ slash ∷ key
      → end_req.path ≡ req.path
      → key ≢ []
      → Lacks slash key
      → find_by_key sha256 s key ≡ some slug
      → (live_in (auth sha256 decode s r).0.channels slug ≡ true)
        × ((k : Bytes)
            → live_in (unpublish sha256 decode (auth sha256 decode s r).0 q).0.channels k
              ≡ (if k == slug then false else live_in s.channels k))
  stream_by_path s v r q req end_req p key slug e d act pw path same n flat f =
      let presented : presented_key req ≡ key =
        ground (arith, pw, path, last_path_segment_lem p key n flat) in
      let opens : find_by_key sha256 s (presented_key req) ≡ some slug =
        ap (find_by_key sha256 s) presented ∙ f in
      let owned = v.sound (hash_key sha256 key) slug (unfold find_by_key in f) in
      let after = auth-set_live s r req slug e act opens in
      let t = (set_live s slug true).0 in
      let resolved : resolve_channel_from_path sha256 t t end_req.path ≡ some slug =
        ap (resolve_channel_from_path sha256 t t) (same ∙ path)
        ∙ resolve-path t p key slug n flat (find_by_key-set_live sha256 s slug true key ∙ f) in
      (
        ground (arith, after, live_in-set_live s slug true slug v (hash_key sha256 key) owned),
        λ k. rw after (offline_again s q end_req slug (hash_key sha256 key) v owned d resolved k),
      )

  -- The same for a stream that presents its key as the password, with the slug for its path. The
  -- slug is not itself a key that opens a channel.
  pub stream_by_password :
      (s : Store)
      → IsValid s
      → (r q : Request) (req end_req : AuthWebhookRequest) (slug : Bytes)
      → read_body decode r ≡ ok req
      → read_body decode q ≡ ok end_req
      → req.action ≡ codes "publish"
      → req.password ≢ []
      → end_req.path ≡ slug
      → slug ≢ []
      → Lacks slash slug
      → find_by_key sha256 s slug ≡ none
      → find_by_key sha256 s req.password ≡ some slug
      → (live_in (auth sha256 decode s r).0.channels slug ≡ true)
        × ((k : Bytes)
            → live_in (unpublish sha256 decode (auth sha256 decode s r).0 q).0.channels k
              ≡ (if k == slug then false else live_in s.channels k))
  stream_by_password s v r q req end_req slug e d act pw path n flat no_key f =
      let presented : presented_key req ≡ req.password = ground (arith, pw) in
      let opens : find_by_key sha256 s (presented_key req) ≡ some slug =
        ap (find_by_key sha256 s) presented ∙ f in
      let h = hash_key sha256 req.password in
      let owned = v.sound h slug (unfold find_by_key in f) in
      let after = auth-set_live s r req slug e act opens in
      let t = (set_live s slug true).0 in
      let w : IsValid t = set_live-IsValid s v slug true in
      let resolved : resolve_channel_from_path sha256 t t end_req.path ≡ some slug =
        ap (resolve_channel_from_path sha256 t t) path
        ∙ resolve-slug t slug h w n flat (find_by_key-set_live sha256 s slug true slug ∙ no_key)
            (hash_of-set_live s slug true slug ∙ owned) in
      (
        ground (arith, after, live_in-set_live s slug true slug v h owned),
        λ k. rw after (offline_again s q end_req slug h v owned d resolved k),
      )
