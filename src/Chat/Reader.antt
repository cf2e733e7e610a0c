-- ===== src/Chat/Reader.antt =====
-- services/chat/handler.go: the read loop of a connection and its ping loop. A frame stands with
-- the time at which it was read; the lists end where `conn.Read` fails. `marshal` is `json.Marshal`,
-- and `redis_publish` the Redis client.
pub mod Relay
use vidcast.Base.{
  ℕ, Bool, true, false, List, [], ◌∷◌, Option, none, some, Bytes, codes, Result, ok, err, ◌++◌,
}
use vidcast.Go.Fmt
use vidcast.Chat.Message.{Message}
use vidcast.Chat.Broker.{publish}
use vidcast.Chat.Pod.{to_message}

-- A frame and the time at which it was read.
abbrev pub Frame : Type 0
Frame = Bytes × ℕ

abbrev pub note_error : Bytes → Option Bytes → List Bytes → List Bytes
note_error room none lines = lines
note_error room (some e) lines =
    (codes "chat: publish to room " ++ Fmt.quote room ++ codes " failed: " ++ e) ∷ lines

module _ {C Net : Type 0} (marshal : Message → Result Bytes Bytes)
    (redis_publish : C → Bytes → Bytes → Net → Net × Option Bytes) (shards : List C)
    (room username : Bytes) where
  -- The read loop, with the lines of the log, the newest first; `none` is a panic.
  unfoldable pub read_loop : List Frame → Net → List Bytes → Option (Net × List Bytes)
  unfolding publish
  read_loop [] net lines = some (net, lines)
  read_loop ((data_, now) ∷ frames) net lines =
      elim (marshal (to_message room username data_ now)) [
        | err e ↦ read_loop frames net lines
        | ok payload ↦ elim (publish redis_publish shards room payload net) [
          | none ↦ none
          | some (sent, error) ↦ read_loop frames sent (note_error room error lines)
        ]
      ]

-- What the select of the ping loop finds next.
pub data PingEvent : Type 0 where
  ticks : Option Bytes → PingEvent
  context_done : PingEvent

-- The ping loop on what it finds: whether it calls `stop`, if it has ended.
unfoldable pub ping_loop : List PingEvent → Option Bool
ping_loop [] = none
ping_loop (ticks none ∷ es) = ping_loop es
ping_loop (ticks (some e) ∷ es) = some true
ping_loop (context_done ∷ es) = some false
