-- ===== src/Streams/Store/Keys.antt =====
-- store.go: what a stream key opens, and what becomes of it.
use vidcast.Base.{
  ◌≡◌, refl, ◌≢◌, Bool, false, not, none, some, [], arith, Bytes, Result, ok, err, ◌==◌, bytes_eq,
}
use mathlib.Core.Option
use vidcast.Base.Dict.{lookup-insert, lookup-delete}
use vidcast.Streams.Store.{
  Store, Channel, StoreError, create_key, rotate_key, revoke_key, generate_key, find_by_key,
  hash_key, get,
}
use vidcast.Streams.Store.Index.{IsValid, IsIndexed, hash_of}

abbrev pub with_key : Bool → Channel → Channel
with_key b c = record c { has_key = b }

abbrev IsHashed : (Bytes → Bytes) → Result StoreError (Bytes × Bytes) → Type 0
IsHashed sha256 (err e) = Unit
IsHashed sha256 (ok (key, hash)) = hash ≡ hash_key sha256 key

generate_key-IsHashed :
    (sha256 : Bytes → Bytes) (rand : Result Bytes Bytes)
    → IsHashed sha256 (generate_key sha256 rand)
unfolding generate_key
generate_key-IsHashed sha256 (ok raw) = refl
generate_key-IsHashed sha256 (err m) = tt

module _ (sha256 : Bytes → Bytes) (s : Store) (slug : Bytes) (rand : Result Bytes Bytes) where
  -- When `CreateKey` returns a key, the slug had no channel before, the key opens the channel,
  -- which is offline, every other channel reads as before, and every key with another hash opens
  -- what it opened before.
  pub create_key_opens :
      (key : Bytes)
      → (create_key sha256 s slug rand).1 ≡ ok key
      → (get s slug ≡ none)
        × (find_by_key sha256 (create_key sha256 s slug rand).0 key ≡ some slug)
        × (get (create_key sha256 s slug rand).0 slug
            ≡ some
                (record { slug = slug; has_key = not (hash_key sha256 key == []); live = false }))
        × ((j : Bytes) → j ≢ slug → get (create_key sha256 s slug rand).0 j ≡ get s j)
        × ((k : Bytes)
            → hash_key sha256 k ≢ hash_key sha256 key
            → find_by_key sha256 (create_key sha256 s slug rand).0 k ≡ find_by_key sha256 s k)
  unfolding create_key find_by_key get
  create_key_opens key e = (
    ground arith,
    grind (arith, generate_key-IsHashed sha256 rand, lookup-insert),
    grind (arith, generate_key-IsHashed sha256 rand, lookup-insert),
    λ j n. grind (arith, lookup-insert),
    λ k n. grind (arith, generate_key-IsHashed sha256 rand, lookup-insert),
  )

  -- When `RotateKey` on a valid store returns a key, that key opens the channel, the key that it
  -- had before (any key with the old hash, if the new hash differs) opens nothing, the channel
  -- stays as live as it was, every other channel reads as before, and every key with neither hash
  -- opens what it opened before.
  pub rotate_key_replaces :
      (key old : Bytes)
      → IsValid s
      → (rotate_key sha256 s slug rand).1 ≡ ok key
      → hash_of s.channels slug ≡ some old
      → (find_by_key sha256 (rotate_key sha256 s slug rand).0 key ≡ some slug)
        × ((k : Bytes)
            → hash_key sha256 k ≡ old
            → old ≢ hash_key sha256 key
            → find_by_key sha256 (rotate_key sha256 s slug rand).0 k ≡ none)
        × (get (rotate_key sha256 s slug rand).0 slug
            ≡ Option.map (with_key (not (hash_key sha256 key == []))) (get s slug))
        × ((j : Bytes) → j ≢ slug → get (rotate_key sha256 s slug rand).0 j ≡ get s j)
        × ((k : Bytes)
            → hash_key sha256 k ≢ old
            → hash_key sha256 k ≢ hash_key sha256 key
            → find_by_key sha256 (rotate_key sha256 s slug rand).0 k ≡ find_by_key sha256 s k)
  unfolding rotate_key find_by_key get
  rotate_key_replaces key old v e o = (
    grind (arith, generate_key-IsHashed sha256 rand, lookup-insert),
    λ k same new. grind (arith, generate_key-IsHashed sha256 rand, lookup-insert, lookup-delete),
    grind (arith, generate_key-IsHashed sha256 rand, lookup-insert),
    λ j n. grind (arith, lookup-insert),
    λ k n m. grind (arith, generate_key-IsHashed sha256 rand, lookup-insert, lookup-delete),
  )

module _ (sha256 : Bytes → Bytes) (s : Store) (slug : Bytes) where
  -- When `RevokeKey` succeeds on a valid store that indexes every channel, no key opens the channel
  -- any more, it cannot be read, every other channel reads as before, and every key that opened
  -- another channel still does.
  pub revoke_key_closes :
      IsValid s
      → IsIndexed s
      → (revoke_key s slug).1 ≡ ok tt
      → ((k : Bytes) → find_by_key sha256 (revoke_key s slug).0 k ≢ some slug)
        × (get (revoke_key s slug).0 slug ≡ none)
        × ((j : Bytes) → j ≢ slug → get (revoke_key s slug).0 j ≡ get s j)
        × ((k j : Bytes)
            → j ≢ slug
            → find_by_key sha256 s k ≡ some j
            → find_by_key sha256 (revoke_key s slug).0 k ≡ some j)
  unfolding revoke_key find_by_key get
  revoke_key_closes v i e = (
    λ k f. grind (arith, v.sound (hash_key sha256 k) slug, lookup-delete),
    grind (arith, lookup-delete),
    λ j n. grind (arith, lookup-delete),
    λ k j n f. grind (arith, i (hash_key sha256 k) slug, lookup-delete),
  )
