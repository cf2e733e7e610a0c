-- ===== src/Streams/Store/Registry.antt =====
-- store.go against what it promises: a partial function from slugs to the hash of the current key
-- and the live flag. The key index and the layout of the maps are forgotten.
use mathlib.Core.Path.{fun_ext}
use vidcast.Base.{
  ◌≡◌, refl, ◌∙◌, ap, Bool, false, ◌↔◌, Option, none, some, List, [], ◌∷◌, arith, Bytes, Result, ok,
  err, if◌then◌else◌, ◌==◌, bytes_eq,
}
use vidcast.Base.Dict.{lookup, lookup-insert, lookup-delete}
use vidcast.Streams.Store.{
  Store, StoreError, channel_exists, channel_not_found, create_key, rotate_key, revoke_key,
  set_live, generate_key, find_by_key, hash_key,
}
use vidcast.Streams.Store.Index.{IsValid, IsIndexed}
use vidcast.Streams.Store.Runs.{
  Call, creates, rotates, revokes, sets_live, Reply, key, done, step, run,
}

pub record Entry : Type 0 where
  pub hash : Bytes
  pub live : Bool

abbrev pub Registry : Type 0
Registry = Bytes → Option Entry

abbrev pub registry : Store → Registry
registry s k = elim (lookup k s.channels) [
  | none ↦ none
  | some r ↦ some (record { hash = r.key_hash; live = r.live })
]

abbrev update : Registry → Bytes → Option Entry → Registry
update r k v j = if j == k then v else r j

abbrev pub hash_in : Registry → Bytes → Option Bytes
hash_in r k = elim (r k) [ none ↦ none | some e ↦ some e.hash ]

module _ (sha256 : Bytes → Bytes) where
  -- The entry that a new key gives to a channel, and the reply.
  abbrev assign : Registry → Bytes → Bool → Result StoreError (Bytes × Bytes) → Registry × Reply
  assign r slug live (err e) = (r, key (err e))
  assign r slug live (ok (k, h)) =
      (update r slug (some (record { hash = h; live = live })), key (ok k))

  abbrev pub promise : Registry → Call → Registry × Reply
  promise r (creates slug rand) = elim (r slug) [
    | some _ ↦ (r, key (err channel_exists))
    | none ↦ assign r slug false (generate_key sha256 rand)
  ]
  promise r (rotates slug rand) = elim (r slug) [
    | none ↦ (r, key (err channel_not_found))
    | some e ↦ assign r slug e.live (generate_key sha256 rand)
  ]
  promise r (revokes slug) = elim (r slug) [
    | none ↦ (r, done (err channel_not_found))
    | some _ ↦ (update r slug none, done (ok tt))
  ]
  promise r (sets_live slug live) = elim (r slug) [
    | none ↦ (r, done (err channel_not_found))
    | some e ↦ (update r slug (some (record e { live = live })), done (ok tt))
  ]

  abbrev pub promises : Registry → List Call → Registry
  promises r [] = r
  promises r (c ∷ cs) = promises (promise r c).0 cs

  registry-step_at :
      (s : Store) (c : Call) (k : Bytes)
      → registry (step sha256 s c).0 k ≡ (promise (registry s) c).0 k
  unfolding step create_key rotate_key revoke_key set_live
  registry-step_at s (creates slug rand) k = grind (arith, lookup-insert)
  registry-step_at s (rotates slug rand) k = grind (arith, lookup-insert)
  registry-step_at s (revokes slug) k = grind (arith, lookup-delete)
  registry-step_at s (sets_live slug live) k = grind (arith, lookup-insert)

  reply-step : (s : Store) (c : Call) → (step sha256 s c).1 ≡ (promise (registry s) c).1
  unfolding step create_key rotate_key revoke_key set_live
  reply-step s (creates slug rand) = ground arith
  reply-step s (rotates slug rand) = ground arith
  reply-step s (revokes slug) = ground arith
  reply-step s (sets_live slug live) = ground arith

  -- Every method does to the registry what is promised, and gives the promised reply: a creation
  -- fails on a channel that exists and the other calls on one that does not, a creation and a
  -- rotation also when no key can be made, and no other call fails; a creation makes the channel
  -- offline, a rotation keeps the live flag, and a failed call changes nothing.
  pub registry-step :
      (s : Store) (c : Call)
      → (registry (step sha256 s c).0 ≡ (promise (registry s) c).0)
        × ((step sha256 s c).1 ≡ (promise (registry s) c).1)
  registry-step s c = (fun_ext (registry-step_at s c), reply-step s c)

  -- So the store after any sequence of calls is what the calls promise, whatever its state before.
  pub registry-run :
      (s : Store) (cs : List Call) → registry (run sha256 s cs) ≡ promises (registry s) cs
  unfolding run
  registry-run s [] = refl
  registry-run s (c ∷ cs) =
      registry-run (step sha256 s c).0 cs ∙ ap (λ r. promises r cs) (fun_ext (registry-step_at s c))

  -- On a valid store that indexes every channel, a key opens a channel exactly when its hash is the
  -- one that the registry has for the channel.
  pub find_by_key-registry :
      (s : Store)
      → IsValid s
      → IsIndexed s
      → (k slug : Bytes)
      → (find_by_key sha256 s k ≡ some slug)
        ↔ (hash_in (registry s) slug ≡ some (hash_key sha256 k))
  unfolding find_by_key
  find_by_key-registry s v i k slug = (
    λ f. ground (arith, v.sound (hash_key sha256 k) slug f),
    λ h. i (hash_key sha256 k) slug (ground (arith, h)),
  )
