-- ===== src/Tests/Shards.antt =====
-- The shards of the chat service and their health.
use vidcast.Base.{
  Result, ok, ◌≡◌, Option, none, some, List, [], ◌∷◌, arith, Bytes, codes, nat_eq, bytes_eq,
  if◌then◌else◌, ◌==◌,
}
use vidcast.Chat.Broker.{subscribe}
use vidcast.Chat.Message.{Message}
use vidcast.Chat.Reader.{read_loop}
use vidcast.Chat.Reader.Relay.{read_loop_lem, send_all}

abbrev two_shards : List Bytes
two_shards = codes "redis-0:6379" ∷ codes "redis-1:6379" ∷ []

-- REDIS_ADDR names both.
abbrev env : Bytes → Bytes
env k = if k == codes "REDIS_ADDR" then codes "redis-0:6379,redis-1:6379" else []

-- A network that keeps the last message.
abbrev keep : Bytes → Bytes → Bytes → List Bytes → List Bytes × Option Bytes
keep shard channel payload net = (shard ∷ channel ∷ payload ∷ [], none)

-- A message is its body.
abbrev marshal : Message → Result Bytes Bytes
marshal m = ok m.body

read_loop_lem_example :
    (shard : Bytes) × (channel : Bytes) × (subscribe two_shards (codes "lobby")
      ≡ some (shard, channel))
    × ((other : Bytes) (s : Bytes)
        → subscribe two_shards other ≡ some (s, channel)
        → other ≡ codes "lobby")
    × (read_loop marshal keep two_shards (codes "lobby") (codes "ann") ((codes "hi", 7) ∷ []) [] []
        ≡ some (send_all marshal keep shard channel (codes "lobby") (codes "hi" ∷ []) [] []))
read_loop_lem_example =
    read_loop_lem marshal keep two_shards (codes "lobby") (codes "ann") ((codes "hi", 7) ∷ []) []
      (λ e. cc) (omega arith)
