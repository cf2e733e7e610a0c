-- ===== src/Streams/Store/Index.antt =====
-- store.go: the invariant of the two maps.
use vidcast.Base.{◌≡◌, Bool, Option, none, some, arith, Bytes, Result, ok, err, bytes_eq}
use vidcast.Base.Dict.{
  Dict, lookup, NodupKeys, lookup-insert, lookup-delete, insert-NodupKeys, delete-NodupKeys,
}
use vidcast.Streams.Store.{
  Store, ChannelRecord, StoreError, new_store, create_key, rotate_key, revoke_key, set_live,
  generate_key,
}

-- The hash of the current key of a channel.
abbrev pub hash_of : Dict Bytes ChannelRecord → Bytes → Option Bytes
hash_of d k = elim (lookup k d) [ none ↦ none | some r ↦ some r.key_hash ]

pub record IsValid (s : Store) : Type 0 where
  pub nodup : NodupKeys s.channels
  pub nodup_index : NodupKeys s.by_key_hash
  pub slugs : (k : Bytes) (r : ChannelRecord) → lookup k s.channels ≡ some r → r.slug ≡ k
  -- An entry of the index names a channel that exists, and its current hash.
  pub sound : (h k : Bytes) → lookup h s.by_key_hash ≡ some k → hash_of s.channels k ≡ some h

-- Every channel is found under its current hash. This needs new keys with new hashes.
abbrev pub IsIndexed : Store → Type 0
IsIndexed s = (h k : Bytes) → hash_of s.channels k ≡ some h → lookup h s.by_key_hash ≡ some k

pub new_store-IsValid : IsValid new_store
unfolding new_store lookup
new_store-IsValid = record {
  nodup = tt;
  nodup_index = tt;
  slugs = λ k r e. cc;
  sound = λ h k e. cc;
}

pub new_store-IsIndexed : IsIndexed new_store
unfolding new_store lookup
new_store-IsIndexed h k e = cc

module _ (s : Store) (v : IsValid s) (slug : Bytes) where
  pub revoke_key-IsValid : IsValid (revoke_key s slug).0
  unfolding revoke_key
  revoke_key-IsValid = record {
    nodup = ground (arith, v.nodup, delete-NodupKeys slug s.channels v.nodup);
    nodup_index = grind (arith, v.nodup_index, delete-NodupKeys);
    slugs = λ k r e. grind (arith, v.slugs k r, lookup-delete);
    sound = λ h k e. grind (arith, v.sound h k, lookup-delete);
  }

  pub revoke_key-IsIndexed : IsIndexed s → IsIndexed (revoke_key s slug).0
  unfolding revoke_key
  revoke_key-IsIndexed i h k e = grind (arith, i h k, i h slug, lookup-delete)

  pub set_live-IsValid : (live : Bool) → IsValid (set_live s slug live).0
  unfolding set_live
  set_live-IsValid live = record {
    nodup = grind (arith, v.nodup, insert-NodupKeys);
    nodup_index = ground (arith, v.nodup_index);
    slugs = λ k r e. grind (arith, v.slugs k r, v.slugs slug, lookup-insert);
    sound = λ h k e. grind (arith, v.sound h k, lookup-insert);
  }

  pub set_live-IsIndexed : (live : Bool) → IsIndexed s → IsIndexed (set_live s slug live).0
  unfolding set_live
  set_live-IsIndexed live i h k e = grind (arith, i h k, lookup-insert)

-- The generated key, if there is one, has a hash that is not in the index.
abbrev pub IsFresh : Store → Result StoreError (Bytes × Bytes) → Type 0
IsFresh s (err e) = Unit
IsFresh s (ok (key, hash)) = lookup hash s.by_key_hash ≡ none

module _ (sha256 : Bytes → Bytes) (s : Store) (slug : Bytes) (rand : Result Bytes Bytes) where
  pub create_key-IsValid : IsValid s → IsValid (create_key sha256 s slug rand).0
  unfolding create_key
  create_key-IsValid v = record {
    nodup = grind (arith, v.nodup, insert-NodupKeys);
    nodup_index = grind (arith, v.nodup_index, insert-NodupKeys);
    slugs = λ k r e. grind (arith, v.slugs k r, lookup-insert);
    sound = λ h k e. grind (arith, v.sound h k, lookup-insert);
  }

  pub create_key-IsIndexed :
      IsFresh s (generate_key sha256 rand)
      → IsIndexed s
      → IsIndexed (create_key sha256 s slug rand).0
  unfolding create_key
  create_key-IsIndexed f i h k e = grind (arith, i h k, lookup-insert)

  pub rotate_key-IsValid : IsValid s → IsValid (rotate_key sha256 s slug rand).0
  unfolding rotate_key
  rotate_key-IsValid v = record {
    nodup = grind (arith, v.nodup, insert-NodupKeys);
    nodup_index = grind (arith, v.nodup_index, insert-NodupKeys, delete-NodupKeys);
    slugs = λ k r e. grind (arith, v.slugs k r, v.slugs slug, lookup-insert);
    sound = λ h k e. grind (arith, v.sound h k, lookup-insert, lookup-delete);
  }

  pub rotate_key-IsIndexed :
      IsFresh s (generate_key sha256 rand)
      → IsIndexed s
      → IsIndexed (rotate_key sha256 s slug rand).0
  unfolding rotate_key
  rotate_key-IsIndexed f i h k e = grind (arith, i h k, i h slug, lookup-insert, lookup-delete)
