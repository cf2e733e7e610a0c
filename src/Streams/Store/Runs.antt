-- ===== src/Streams/Store/Runs.antt =====
-- store.go: any sequence of calls of the store's methods.
use vidcast.Base.{Bool, List, [], ◌∷◌, Bytes, Result}
use vidcast.Streams.Store.{
  Store, StoreError, new_store, create_key, rotate_key, revoke_key, set_live, generate_key,
}
use vidcast.Streams.Store.Index.{
  IsValid, IsIndexed, IsFresh, new_store-IsValid, new_store-IsIndexed, create_key-IsValid,
  create_key-IsIndexed, rotate_key-IsValid, rotate_key-IsIndexed, revoke_key-IsValid,
  revoke_key-IsIndexed, set_live-IsValid, set_live-IsIndexed,
}

-- A call of a method that changes the store. What `rand.Read` yields is part of the call.
pub data Call : Type 0 where
  creates rotates : Bytes → Result Bytes Bytes → Call
  revokes : Bytes → Call
  sets_live : Bytes → Bool → Call

pub data Reply : Type 0 where
  key : Result StoreError Bytes → Reply
  done : Result StoreError (Unit {0}) → Reply

module _ (sha256 : Bytes → Bytes) where
  unfoldable pub step : Store → Call → Store × Reply
  step s (creates slug rand) = let (t, r) = create_key sha256 s slug rand in (t, key r)
  step s (rotates slug rand) = let (t, r) = rotate_key sha256 s slug rand in (t, key r)
  step s (revokes slug) = let (t, r) = revoke_key s slug in (t, done r)
  step s (sets_live slug live) = let (t, r) = set_live s slug live in (t, done r)

  unfoldable pub run : Store → List Call → Store
  run s [] = s
  run s (c ∷ cs) = run (step s c).0 cs

  -- Keys that the call generates have hashes that are not in the index.
  abbrev pub CallIsFresh : Store → Call → Type 0
  CallIsFresh s (creates slug rand) = IsFresh s (generate_key sha256 rand)
  CallIsFresh s (rotates slug rand) = IsFresh s (generate_key sha256 rand)
  CallIsFresh s _ = Unit

  abbrev pub AllFresh : Store → List Call → Type 0
  AllFresh s [] = Unit
  AllFresh s (c ∷ cs) = CallIsFresh s c × AllFresh (step s c).0 cs

  pub step-IsValid : (s : Store) (c : Call) → IsValid s → IsValid (step s c).0
  unfolding step
  step-IsValid s (creates slug rand) v = create_key-IsValid sha256 s slug rand v
  step-IsValid s (rotates slug rand) v = rotate_key-IsValid sha256 s slug rand v
  step-IsValid s (revokes slug) v = revoke_key-IsValid s v slug
  step-IsValid s (sets_live slug live) v = set_live-IsValid s v slug live

  step-IsIndexed :
      (s : Store) (c : Call) → IsValid s → CallIsFresh s c → IsIndexed s → IsIndexed (step s c).0
  unfolding step
  step-IsIndexed s (creates slug rand) v f i = create_key-IsIndexed sha256 s slug rand f i
  step-IsIndexed s (rotates slug rand) v f i = rotate_key-IsIndexed sha256 s slug rand f i
  step-IsIndexed s (revokes slug) v f i = revoke_key-IsIndexed s v slug i
  step-IsIndexed s (sets_live slug live) v f i = set_live-IsIndexed s v slug live i

  pub run-IsValid : (s : Store) (cs : List Call) → IsValid s → IsValid (run s cs)
  unfolding run
  run-IsValid s [] v = v
  run-IsValid s (c ∷ cs) v = run-IsValid (step s c).0 cs (step-IsValid s c v)

  run-IsIndexed :
      (s : Store) (cs : List Call) → IsValid s → AllFresh s cs → IsIndexed s → IsIndexed (run s cs)
  unfolding run
  run-IsIndexed s [] v f i = i
  run-IsIndexed s (c ∷ cs) v f i =
      run-IsIndexed (step s c).0 cs (step-IsValid s c v) f.1 (step-IsIndexed s c v f.0 i)

  -- After any sequence of calls on a new store, whatever keys were generated, no map holds a key
  -- twice, records are stored under their slug, and an entry of the key index names a channel that
  -- exists and whose current key has this hash.
  pub run-new_store-IsValid : (cs : List Call) → IsValid (run new_store cs)
  run-new_store-IsValid cs = run-IsValid new_store cs new_store-IsValid

  -- After any sequence of calls on a new store in which every generated key has a hash that is not
  -- in the index at that time, every channel is found in the index under the hash of its current
  -- key.
  pub run-new_store-IsIndexed :
      (cs : List Call) → AllFresh new_store cs → IsIndexed (run new_store cs)
  run-new_store-IsIndexed cs f = run-IsIndexed new_store cs new_store-IsValid f new_store-IsIndexed
