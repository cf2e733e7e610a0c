-- ===== src/Streams/Store/Generation.antt =====
-- store.go: the keys that `generateKey` makes.
use vidcast.Base.{true, false, some, Result, bytes_eq, ◌≡◌, ◌+◌, ◌*◌, arith, Bytes, ok, length}
use vidcast.Go.Hex.{AreBytes, encode_injective, length-encode}
use vidcast.Go.Sha256.{sum256, length-sum256}
use vidcast.Streams.Store.Keys.{create_key_opens}
use vidcast.Streams.Store.{Store, create_key, get, generate_key, hash_key}

module _ (sha256 : Bytes → Bytes) where
  -- Whatever bytes the random source yields, a key is made of them: 3 characters and two for each
  -- byte (51 for the 24 bytes that are read), with the hash that `hashKey` gives to it. The key
  -- determines the bytes: no two yields give the same key.
  pub generate_key_lem :
      (raw other key hash hash' : Bytes)
      → AreBytes raw
      → AreBytes other
      → generate_key sha256 (ok raw) ≡ ok (key, hash)
      → (length key ≡ 3 + 2 * length raw)
        × (hash ≡ hash_key sha256 key)
        × (generate_key sha256 (ok other) ≡ ok (key, hash') → raw ≡ other)
  unfolding generate_key
  generate_key_lem raw other key hash hash' h k e = (
    ground (arith, e, length-encode raw),
    ground (arith, e),
    λ f. encode_injective raw other h k (ground (arith, e, f)),
  )

hash_key-sum256 : (key : Bytes) → length (hash_key sum256 key) ≡ 64
unfolding hash_key
hash_key-sum256 key = ground (arith, length-encode (sum256 key), length-sum256 key)

-- With SHA-256 for the hash, a channel that has been created reads as one with a key, offline.
pub create_key-has_key :
    (s : Store) (slug key : Bytes) (rand : Result Bytes Bytes)
    → (create_key sum256 s slug rand).1 ≡ ok key
    → get (create_key sum256 s slug rand).0 slug
      ≡ some (record { slug = slug; has_key = true; live = false })
create_key-has_key s slug key rand e =
    ground (arith, (create_key_opens sum256 s slug rand key e).2, hash_key-sum256 key)
