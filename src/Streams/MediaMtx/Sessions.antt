-- ===== src/Streams/MediaMtx/Sessions.antt =====
-- mediamtx_handler.go: what a publish request and the unpublish hook do to the channels.
use vidcast.Base.{
  ◌≡◌, ◌≢◌, ◌↔◌, Bool, true, false, none, some, Option-cases, inl, inr, arith, Bytes, codes, Result,
  ok, err, if◌then◌else◌, ◌==◌, bytes_eq,
}
use vidcast.Base.Dict.{lookup-insert}
use vidcast.Go.Http.{Request, write_header}
use vidcast.Streams.HttpJson.{write_error}
use vidcast.Streams.Store.{Store, find_by_key, set_live, hash_key}
use vidcast.Streams.Store.Index.{IsValid, IsIndexed, hash_of}
use vidcast.Streams.Store.Listing.{live_in}
use vidcast.Streams.Store.Registry.{registry, hash_in, find_by_key-registry}
use vidcast.Streams.MediaMtx.{
  AuthWebhookRequest, read_body, presented_key, auth, unpublish, resolve_channel_from_path,
}

pub live_in-set_live :
    (s : Store) (slug : Bytes) (live : Bool) (k : Bytes)
    → IsValid s
    → (h : Bytes) → hash_of s.channels slug ≡ some h
    → live_in (set_live s slug live).0.channels k
      ≡ (if k == slug then live else live_in s.channels k)
unfolding set_live
live_in-set_live s slug live k v h e = grind (arith, lookup-insert)

-- The key index and the hashes are not touched.
pub find_by_key-set_live :
    (sha256 : Bytes → Bytes) (s : Store) (slug : Bytes) (live : Bool) (k : Bytes)
    → find_by_key sha256 (set_live s slug live).0 k ≡ find_by_key sha256 s k
unfolding set_live find_by_key
find_by_key-set_live sha256 s slug live k = ground arith

pub hash_of-set_live :
    (s : Store) (slug : Bytes) (live : Bool) (k : Bytes)
    → hash_of (set_live s slug live).0.channels k ≡ hash_of s.channels k
unfolding set_live
hash_of-set_live s slug live k = grind (arith, lookup-insert)

module _ (sha256 : Bytes → Bytes) (decode : Bytes → Bool → Result Bytes AuthWebhookRequest) where
  -- On a valid store that indexes every channel, a publish request is answered with 200 exactly
  -- when the key that it presents has the hash of some channel's current key.
  pub auth_authorizes :
      (s : Store)
      → IsValid s
      → IsIndexed s
      → (r : Request) (req : AuthWebhookRequest) → read_body decode r ≡ ok req
      → req.action ≡ codes "publish"
      → ((auth sha256 decode s r).1.status ≡ 200) ↔ (
          (slug : Bytes) × (hash_in (registry s) slug ≡ some (hash_key sha256 (presented_key req))))
  unfolding auth
  auth_authorizes s v i r req e p =
      let key = presented_key req in
      elim (Option-cases (find_by_key sha256 s key)) [
        | inl missing ↦ (
          λ h. ground (arith, e, p, missing, h),
          λ (slug, h). ground (arith, (find_by_key-registry sha256 s v i key slug).1 h, missing),
        )
        | inr (slug, found) ↦ (
          λ _. (slug, (find_by_key-registry sha256 s v i key slug).0 found),
          λ _. ground (arith, e, p, found),
        )
      ]

  -- A publish request with a key that opens a channel of a valid store makes this channel live and
  -- changes the live flag of no other, and no hash of a key.
  pub auth_marks_live :
      (s : Store)
      → IsValid s
      → (r : Request) (req : AuthWebhookRequest) (slug : Bytes) → read_body decode r ≡ ok req
      → req.action ≡ codes "publish"
      → find_by_key sha256 s (presented_key req) ≡ some slug
      → (k : Bytes)
      → (live_in (auth sha256 decode s r).0.channels k
          ≡ (if k == slug then true else live_in s.channels k))
        × (hash_of (auth sha256 decode s r).0.channels k ≡ hash_of s.channels k)
  unfolding auth
  auth_marks_live s v r req slug e p f k =
      let owned = v.sound (hash_key sha256 (presented_key req)) slug (unfold find_by_key in f) in
      ground (
        arith,
        e,
        p,
        f,
        live_in-set_live s slug true k v (hash_key sha256 (presented_key req)) owned,
        hash_of-set_live s slug true k,
      )

  pub auth_status :
      (s : Store) (r : Request) (req : AuthWebhookRequest) (slug : Bytes)
      → read_body decode r ≡ ok req
      → req.action ≡ codes "publish"
      → find_by_key sha256 s (presented_key req) ≡ some slug
      → (auth sha256 decode s r).1 ≡ write_header 200
  unfolding auth
  auth_status s r req slug e p f = ground (arith, e, p, f)

  -- Every other request to the webhook changes nothing: one that is no publish request is answered
  -- with 200, one with a key that opens nothing with 401, and a body that cannot be read with 400.
  pub auth_otherwise :
      (s : Store) (r : Request)
      → ((m : Bytes) → read_body decode r ≡ err m → auth sha256 decode s r ≡ (s, write_error 400 m))
        × ((req : AuthWebhookRequest)
            → read_body decode r ≡ ok req
            → req.action ≢ codes "publish"
            → auth sha256 decode s r ≡ (s, write_header 200))
        × ((req : AuthWebhookRequest)
            → read_body decode r ≡ ok req
            → req.action ≡ codes "publish"
            → find_by_key sha256 s (presented_key req) ≡ none
            → auth sha256 decode s r ≡ (s, write_header 401))
  unfolding auth
  auth_otherwise s r = (
    λ m e. ground (arith, e),
    λ req e n. ground (arith, e, n),
    λ req e p f. ground (arith, e, p, f),
  )

  -- The hook marks the channel that the path resolves to as offline.
  pub unpublish-set_live :
      (s : Store) (r : Request) (req : AuthWebhookRequest) (slug : Bytes)
      → read_body decode r ≡ ok req
      → resolve_channel_from_path sha256 s s req.path ≡ some slug
      → unpublish sha256 decode s r ≡ ((set_live s slug false).0, write_header 200)
  unfolding unpublish
  unpublish-set_live s r req slug e f = ground (arith, e, f)
