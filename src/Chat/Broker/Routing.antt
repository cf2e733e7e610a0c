-- ===== src/Chat/Broker/Routing.antt =====
-- broker.go: the shards and the channels of rooms.
use vidcast.Base.{
  ℕ, zero, suc, ◌%◌, ◌<◌, ◌≡◌, refl, ◌≢◌, List, [], ◌∷◌, ◌++◌, Option, some, arith, Bytes, nat_eq,
  length, get_elem?,
}
use vidcast.Go.Fnv.{sum32, u32_mod}
use vidcast.Chat.Broker.{
  room_channel_prefix, room_channel, shard_index, shard_for, publish, subscribe,
}

-- For any number of shards from 1 to 2 ^ 32 - 1, the index of a room exists and is below it.
pub shard_index-lt :
    (room : Bytes) (n : ℕ) → 0 < n → n < u32_mod → (i : ℕ) × (shard_index room n ≡ some i) × (i < n)
unfolding shard_index
shard_index-lt room zero h l = absurd (omega arith)
shard_index-lt room (suc zero) h l = (0, refl, omega arith)
shard_index-lt room (suc (suc n)) h l = (sum32 room % suc (suc n), ground arith, omega arith)

pub get_elem?-lt :
    {C : Type 0} (xs : List C) (i : ℕ) → i < length xs → (x : C) × (get_elem? xs i ≡ some x)
get_elem?-lt [] i h = absurd (omega arith)
get_elem?-lt (x ∷ xs) zero h = (x, refl)
get_elem?-lt (x ∷ xs) (suc i) h = get_elem?-lt xs i (omega arith)

append_cancel : (p s t : Bytes) → p ++ s ≡ p ++ t → s ≡ t
append_cancel [] s t e = e
append_cancel (c ∷ p) s t e = append_cancel p s t (ground (arith, e))

-- Two rooms with the same channel are one room.
pub room_channel_injective : (r s : Bytes) → room_channel r ≡ room_channel s → r ≡ s
unfolding room_channel
room_channel_injective r s e = append_cancel room_channel_prefix r s e

-- With at least one shard and fewer than 2 ^ 32, a message for any room is published, without a
-- panic, on a shard and a channel that a subscriber of this room, on any pod with the same list of
-- shards, listens to; and a subscriber of another room listens to another channel.
pub publish-subscribe :
    {C Net : Type 0} (redis_publish : C → Bytes → Bytes → Net → Net × Option Bytes)
    (shards : List C) (room payload : Bytes) (net : Net)
    → shards ≢ []
    → length shards < u32_mod
    → (shard : C) × (channel : Bytes) × (publish redis_publish shards room payload net
        ≡ some (redis_publish shard channel payload net))
      × (subscribe shards room ≡ some (shard, channel))
      × ((other : Bytes) (s : C) → subscribe shards other ≡ some (s, channel) → other ≡ room)
unfolding publish subscribe shard_for
publish-subscribe redis_publish [] room payload net n l = absurd (n refl)
publish-subscribe redis_publish (c ∷ cs) room payload net n l =
    let (i, e, b) = shard_index-lt room (length (c ∷ cs)) (omega arith) l in
    let (s, f) = get_elem?-lt (c ∷ cs) i b in
    (
      s,
      room_channel room,
      ground (arith, e, f),
      ground (arith, e, f),
      λ other t h. room_channel_injective other room (ground (arith, h)),
    )
