-- ===== src/Streams/Store.antt =====
-- services/streams/store.go: the registry of channels, stream keys and live state. Every method
-- holds the mutex from beginning to end, so a method is one step on the state. The records behind
-- the pointers of `channels` are reached through that map alone, so they are values here.
pub mod Generation
pub mod Index
pub mod Keys
pub mod Runs
pub mod Listing
pub mod Extensional
pub mod Registry
use vidcast.Base.{
  ◌≡◌, Bool, true, false, not, List, [], ◌∷◌, ◌++◌, Option, none, some, Bytes, codes, Result, ok,
  err, if◌then◌else◌, ◌==◌, bytes_eq, str_lt,
}
use vidcast.Base.Dict.{Dict, lookup, insert, delete}
use vidcast.Go.Hex

-- `generate_key_failed` carries the text of the error, that of `rand.Read` included.
pub data StoreError : Type 0 where
  channel_exists : StoreError
  channel_not_found : StoreError
  generate_key_failed : Bytes → StoreError

pub record Channel : Type 0 where
  pub slug : Bytes
  pub has_key : Bool
  pub live : Bool

pub record LiveChannel : Type 0 where
  pub slug : Bytes
  pub live : Bool

pub record ChannelRecord : Type 0 where
  pub slug : Bytes
  pub key_hash : Bytes
  pub live : Bool

pub record Store : Type 0 where
  pub channels : Dict Bytes ChannelRecord
  pub by_key_hash : Dict Bytes Bytes

unfoldable pub new_store : Store
new_store = record { channels = []; by_key_hash = [] }

-- `Get`.
unfoldable pub get : Store → Bytes → Option Channel
get s slug = elim (lookup slug s.channels) [
  | none ↦ none
  | some rec ↦
      some (record { slug = rec.slug; has_key = not (rec.key_hash == []); live = rec.live })
]

-- `SetLive`.
unfoldable pub set_live : Store → Bytes → Bool → Store × Result StoreError (Unit {0})
set_live s slug live = elim (lookup slug s.channels) [
  | none ↦ (s, err channel_not_found)
  | some rec ↦ (record s { channels = insert slug (record rec { live = live }) s.channels }, ok tt)
]

-- `RevokeKey`.
unfoldable pub revoke_key : Store → Bytes → Store × Result StoreError (Unit {0})
revoke_key s slug = elim (lookup slug s.channels) [
  | none ↦ (s, err channel_not_found)
  | some rec ↦ (
    record s { channels = delete slug s.channels; by_key_hash = delete rec.key_hash s.by_key_hash },
    ok tt,
  )
]

-- The loop of `ListLive` over the map.
unfoldable pub collect_live : Dict Bytes ChannelRecord → List LiveChannel
collect_live [] = []
collect_live ((_, rec) ∷ d) =
    let rest = collect_live d in
    if rec.live then record { slug = rec.slug; live = true } ∷ rest else rest

-- `sort.Slice` by slug. The slugs are distinct, so every sort gives this list.
unfoldable pub insert_by_slug : LiveChannel → List LiveChannel → List LiveChannel
insert_by_slug c [] = c ∷ []
insert_by_slug c (d ∷ ds) =
    let rest = insert_by_slug c ds in if str_lt d.slug c.slug then d ∷ rest else c ∷ d ∷ ds

unfoldable pub sort_by_slug : List LiveChannel → List LiveChannel
unfolding insert_by_slug
sort_by_slug [] = []
sort_by_slug (c ∷ cs) = insert_by_slug c (sort_by_slug cs)

-- `ListLive`.
unfoldable pub list_live : Store → List LiveChannel
unfolding collect_live sort_by_slug
list_live s = sort_by_slug (collect_live s.channels)

-- `sha256` is `sha256.Sum256`, and `rand` what `rand.Read` puts into the 24 bytes, or its error.
module _ (sha256 : Bytes → Bytes) where
  unfoldable pub hash_key : Bytes → Bytes
  unfolding Hex.encode
  hash_key key = Hex.encode (sha256 key)

  -- The key and its hash.
  unfoldable pub generate_key : Result Bytes Bytes → Result StoreError (Bytes × Bytes)
  unfolding Hex.encode
  generate_key (err e) = err (generate_key_failed (codes "generate stream key: " ++ e))
  generate_key (ok raw) = let key = codes "sk_" ++ Hex.encode raw in ok (key, hash_key key)

  -- The end of `CreateKey`, after its guard.
  abbrev pub store_new_key :
      Store → Bytes → Result StoreError (Bytes × Bytes) → Store × Result StoreError Bytes
  store_new_key s slug (err e) = (s, err e)
  store_new_key s slug (ok (key, hash)) = (
    record s {
      channels = insert slug (record { slug = slug; key_hash = hash; live = false }) s.channels;
      by_key_hash = insert hash slug s.by_key_hash;
    },
    ok key,
  )

  -- `CreateKey`.
  unfoldable pub create_key : Store → Bytes → Result Bytes Bytes → Store × Result StoreError Bytes
  create_key s slug rand = elim (lookup slug s.channels) [
    | some _ ↦ (s, err channel_exists)
    | none ↦ store_new_key s slug (generate_key rand)
  ]

  -- The end of `RotateKey`, after its guard.
  abbrev pub replace_key :
      Store
      → Bytes
      → ChannelRecord
      → Result StoreError (Bytes × Bytes)
      → Store × Result StoreError Bytes
  replace_key s slug rec (err e) = (s, err e)
  replace_key s slug rec (ok (key, hash)) = (
    record s {
      channels = insert slug (record rec { key_hash = hash }) s.channels;
      by_key_hash = insert hash slug (delete rec.key_hash s.by_key_hash);
    },
    ok key,
  )

  -- `RotateKey`.
  unfoldable pub rotate_key : Store → Bytes → Result Bytes Bytes → Store × Result StoreError Bytes
  rotate_key s slug rand = elim (lookup slug s.channels) [
    | none ↦ (s, err channel_not_found)
    | some rec ↦ replace_key s slug rec (generate_key rand)
  ]

  -- `FindByKey`.
  unfoldable pub find_by_key : Store → Bytes → Option Bytes
  find_by_key s key = lookup (hash_key key) s.by_key_hash
