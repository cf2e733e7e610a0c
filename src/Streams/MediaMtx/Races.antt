-- ===== src/Streams/MediaMtx/Races.antt =====
-- mediamtx_handler.go: requests that come between the phases of a handler, or between the publish
-- request of a stream and its end.
use vidcast.Base.{
  ◌≡◌, refl, ◌∙◌, ◌≢◌, Bool, true, [], ◌∷◌, ◌++◌, none, some, arith, Bytes, Result, ok, bytes_eq,
  List,
}
use vidcast.Base.Dict.{lookup-delete, lookup-insert}
use vidcast.Go.Http.{Request, write_header}
use vidcast.Go.FilePath.{slash}
use vidcast.Go.Strings.{Lacks}
use vidcast.Streams.Store.{Store, find_by_key, get, set_live, hash_key, rotate_key, revoke_key}
use vidcast.Streams.Store.Index.{IsValid, set_live-IsValid}
use vidcast.Streams.Store.Listing.{live_in}
use vidcast.Streams.Store.Keys.{rotate_key_replaces}
use vidcast.Streams.Store.Runs.{Call, run, run-IsValid}
use vidcast.Streams.MediaMtx.{
  AuthWebhookRequest, Phase, answered, marking, finish, read_body, auth_find, unpublish,
}
use vidcast.Streams.MediaMtx.Paths.{last_path_segment_lem}

module _ (sha256 : Bytes → Bytes) (decode : Bytes → Bool → Result Bytes AuthWebhookRequest) where
  -- Whatever calls come between the phases of a handler, the store stays valid, and the handler
  -- answers what its first phase decided: 200 once a channel was found.
  pub finish_late :
      (s : Store)
      → IsValid s
      → (cs : List Call) (live : Bool) (p : Phase)
      → IsValid (finish live (run sha256 s cs) p).0
        × ((slug : Bytes)
            → p ≡ marking slug
            → (finish live (run sha256 s cs) p).1 ≡ write_header 200)
  unfolding finish
  finish_late s v cs live (answered response) = (run-IsValid sha256 s cs v, λ slug e. cc)
  finish_late s v cs live (marking slug) =
      (set_live-IsValid (run sha256 s cs) (run-IsValid sha256 s cs v) slug live, λ k e. refl)

  -- A key that is revoked after `FindByKey` and before `SetLive` still publishes: when the webhook
  -- has found the channel and `RevokeKey` then succeeds, the request is answered with 200, and the
  -- store is left as the revocation made it, with no such channel.
  pub publish_after_revoke :
      (s : Store) (r : Request) (slug : Bytes)
      → auth_find sha256 decode s r ≡ marking slug
      → (revoke_key s slug).1 ≡ ok tt
      → (finish true (revoke_key s slug).0 (auth_find sha256 decode s r)
          ≡ ((revoke_key s slug).0, write_header 200))
        × (get (revoke_key s slug).0 slug ≡ none)
  unfolding finish revoke_key get set_live
  publish_after_revoke s r slug e ok_revoked =
      (grind (arith, e, lookup-delete), grind (arith, lookup-delete))

  live_in-rotate_key :
      (s : Store) (slug : Bytes) (rand : Result Bytes Bytes) (k : Bytes)
      → live_in (rotate_key sha256 s slug rand).0.channels k ≡ live_in s.channels k
  unfolding rotate_key
  live_in-rotate_key s slug rand k = grind (arith, lookup-insert)

  -- A rotation in the middle of a stream outlives its end: when a live stream on a valid store has
  -- its key at the end of its path, the key of its channel is rotated to one with another hash, and
  -- the old key is no slug, the unpublish hook with that path changes nothing, and the channel is
  -- still live.
  pub unpublish_after_rotate :
      (s : Store)
      → IsValid s
      → (slug key new_key p : Bytes) (rand : Result Bytes Bytes) (q : Request)
      → (end_req : AuthWebhookRequest) → live_in s.channels slug ≡ true
      → find_by_key sha256 s key ≡ some slug
      → (rotate_key sha256 s slug rand).1 ≡ ok new_key
      → hash_key sha256 key ≢ hash_key sha256 new_key
      → get (rotate_key sha256 s slug rand).0 key ≡ none
      → key ≢ []
      → Lacks slash key
      → read_body decode q ≡ ok end_req
      → end_req.path ≡ p ++ slash ∷ key
      → (unpublish sha256 decode (rotate_key sha256 s slug rand).0 q
          ≡ ((rotate_key sha256 s slug rand).0, write_header 200))
        × (live_in (rotate_key sha256 s slug rand).0.channels slug ≡ true)
  unfolding unpublish
  unpublish_after_rotate s v slug key new_key p rand q end_req live f e new no_slug n flat d path =
      let old = hash_key sha256 key in
      let owned = v.sound old slug (unfold find_by_key in f) in
      let closed = (rotate_key_replaces sha256 s slug rand new_key old v e owned).1 key refl new in
      (
        ground (arith, closed, no_slug, d, path, last_path_segment_lem p key n flat),
        live_in-rotate_key s slug rand slug ∙ live,
      )
