-- ===== src/Streams/StreamKeys/Answers.antt =====
-- streamkey_handler.go: the answers of the four endpoints on every branch.
use vidcast.Base.{◌≡◌, none, some, arith, Bytes, codes, Result, ok, err, bytes_eq}
use vidcast.Go.Http.{Request, write_header}
use vidcast.Streams.HttpJson.{write_json, write_error, message}
use vidcast.Streams.Store.{
  Store, Channel, StoreError, generate_key, get, create_key, rotate_key, revoke_key,
}
use vidcast.Streams.StreamKeys.{
  create_stream_key, get_stream_key, rotate_stream_key, revoke_stream_key, key_body, channel_body,
}

module _ (sha256 : Bytes → Bytes) (rand : Result Bytes Bytes) (s : Store) (r : Request) where
  -- For a slug without a channel, reading, rotating and revoking are answered with 404 and change
  -- nothing, and a creation is answered with 201 and the key, or with 500 when no key can be made,
  -- and then changes nothing. For a slug with a channel, a creation is answered with 409 and changes
  -- nothing, reading with 200 and the channel's state without its key, revoking with 204, and a
  -- rotation with 200 and the new key, or with 500 when none can be made, and then changes nothing.
  pub stream_keys_lem :
      (get s r.slug ≡ none
        → (get_stream_key s r ≡ (s, write_error 404 (codes "channel not found")))
          × (rotate_stream_key sha256 rand s r ≡ (s, write_error 404 (codes "channel not found")))
          × (revoke_stream_key s r ≡ (s, write_error 404 (codes "channel not found")))
          × ((key hash : Bytes)
              → generate_key sha256 rand ≡ ok (key, hash)
              → (create_stream_key sha256 rand s r).1 ≡ write_json 201 (key_body r.slug key))
          × ((e : StoreError)
              → generate_key sha256 rand ≡ err e
              → create_stream_key sha256 rand s r ≡ (s, write_error 500 (message e))))
      × ((ch : Channel)
          → get s r.slug ≡ some ch
          → (create_stream_key sha256 rand s r
              ≡ (s, write_error 409 (codes "channel already has a stream key")))
            × (get_stream_key s r ≡ (s, write_json 200 (channel_body ch)))
            × ((revoke_stream_key s r).1 ≡ write_header 204)
            × ((key hash : Bytes)
                → generate_key sha256 rand ≡ ok (key, hash)
                → (rotate_stream_key sha256 rand s r).1 ≡ write_json 200 (key_body r.slug key))
            × ((e : StoreError)
                → generate_key sha256 rand ≡ err e
                → rotate_stream_key sha256 rand s r ≡ (s, write_error 500 (message e))))
  unfolding get_stream_key create_stream_key rotate_stream_key revoke_stream_key create_key
      rotate_key revoke_key generate_key get
  stream_keys_lem = (
    λ h. (
      ground (arith, h),
      ground (arith, h),
      ground (arith, h),
      λ key hash g. ground (arith, h, g),
      λ e g. ground (arith, h, g),
    ),
    λ ch h. (
      ground (arith, h),
      ground (arith, h),
      ground (arith, h),
      λ key hash g. ground (arith, h, g),
      λ e g. ground (arith, h, g),
    ),
  )
