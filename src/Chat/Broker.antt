-- ===== src/Chat/Broker.antt =====
-- services/chat/broker.go: the Redis shard and the channel of a room. A Redis client is an opaque
-- value; what it does when it publishes is a parameter.
pub mod Routing
use vidcast.Base.{
  ℕ, ◌%◌, Bool, List, [], ◌∷◌, ◌++◌, Option, none, some, Bytes, codes, if◌then◌else◌, ◌==◌, nat_eq,
  leb, length, get_elem?,
}
use vidcast.Go.Fnv.{sum32, u32_mod}

abbrev pub room_channel_prefix : Bytes
room_channel_prefix = codes "chat:room:"

-- `roomChannel`.
unfoldable pub room_channel : Bytes → Bytes
room_channel room = room_channel_prefix ++ room

-- `h.Sum32() % uint32(n)`, where a zero divisor panics: `none`.
abbrev mod_u32 : ℕ → ℕ → Option ℕ
mod_u32 h n = let d = n % u32_mod in if d == 0 then none else some (h % d)

-- `shardIndex`, for a length n.
unfoldable pub shard_index : Bytes → ℕ → Option ℕ
shard_index room n = if leb n 1 then some 0 else mod_u32 (sum32 room) n

module _ {C : Type 0} where
  -- `shardFor`; `none` is a panic, of the index or of `shardIndex`.
  unfoldable pub shard_for : List C → Bytes → Option C
  shard_for shards room = elim (shard_index room (length shards)) [
    | none ↦ none
    | some i ↦ get_elem? shards i
  ]

  module _ {Net : Type 0} (redis_publish : C → Bytes → Bytes → Net → Net × Option Bytes) where
    -- `publish`: the new state of the network and the error, or a panic.
    unfoldable pub publish : List C → Bytes → Bytes → Net → Option (Net × Option Bytes)
    publish shards room payload net = elim (shard_for shards room) [
      | none ↦ none
      | some shard ↦ some (redis_publish shard (room_channel room) payload net)
    ]

  -- What `subscribe` listens to.
  unfoldable pub subscribe : List C → Bytes → Option (C × Bytes)
  subscribe shards room = elim (shard_for shards room) [
    | none ↦ none
    | some shard ↦ some (shard, room_channel room)
  ]

-- What the goroutine of `subscribe` finds next: its context is done, the channel is closed, or a
-- payload has come.
pub data Event : Type 0 where
  cancelled closed : Event
  payload : Bytes → Event

-- The goroutine: the payloads that it hands to `onMessage`.
unfoldable pub listen : List Event → List Bytes
listen [] = []
listen (cancelled ∷ es) = []
listen (closed ∷ es) = []
listen (payload p ∷ es) = p ∷ listen es
