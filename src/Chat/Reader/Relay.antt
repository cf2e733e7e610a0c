-- ===== src/Chat/Reader/Relay.antt =====
-- handler.go and broker.go: what a connection sends, and who listens to it.
use vidcast.Base.{
  ◌<◌, ◌≡◌, refl, ◌≢◌, List, [], ◌∷◌, Option, some, arith, Bytes, Result, ok, err, inl, inr,
  Result-cases, length,
}
use vidcast.Go.Fnv.{u32_mod}
use vidcast.Chat.Message.{Message}
use vidcast.Chat.Broker.{publish, subscribe}
use vidcast.Chat.Broker.Routing.{publish-subscribe}
use vidcast.Chat.Pod.{to_message}
use vidcast.Chat.Reader.{Frame, note_error, read_loop}

module _ {C Net : Type 0} (marshal : Message → Result Bytes Bytes)
    (redis_publish : C → Bytes → Bytes → Net → Net × Option Bytes) where
  -- The payloads of the frames that can be marshalled, in order.
  abbrev pub payloads : Bytes → Bytes → List Frame → List Bytes
  payloads room username [] = []
  payloads room username ((frame, now) ∷ frames) =
      elim (marshal (to_message room username frame now)) [
        | err e ↦ payloads room username frames
        | ok payload ↦ payload ∷ payloads room username frames
      ]

  -- The payloads sent one after another, errors noted and passed over.
  abbrev pub send_all : C → Bytes → Bytes → List Bytes → Net → List Bytes → Net × List Bytes
  send_all shard channel room [] net lines = (net, lines)
  send_all shard channel room (payload ∷ ps) net lines =
      let (sent, error) = redis_publish shard channel payload net in
      send_all shard channel room ps sent (note_error room error lines)

  publish_there :
      (shards : List C) (room payload : Bytes) (net : Net) (shard : C) (channel : Bytes)
      → subscribe shards room ≡ some (shard, channel)
      → publish redis_publish shards room payload net
        ≡ some (redis_publish shard channel payload net)
  unfolding publish subscribe
  publish_there shards room payload net shard channel h = ground (arith, h)

  read_loop-send_all :
      (shards : List C) (room username : Bytes) (shard : C) (channel : Bytes)
      → subscribe shards room ≡ some (shard, channel)
      → (frames : List Frame) (net : Net) (lines : List Bytes)
      → read_loop marshal redis_publish shards room username frames net lines
        ≡ some (send_all shard channel room (payloads room username frames) net lines)
  unfolding read_loop
  read_loop-send_all shards room username shard channel h [] net lines = refl
  read_loop-send_all shards room username shard channel h ((frame, now) ∷ frames) net lines =
      elim (Result-cases (marshal (to_message room username frame now))) [
        | inl (e, bad) ↦
            ground
              (arith, bad, read_loop-send_all shards room username shard channel h frames net lines)
        | inr (payload, good) ↦
            let sent = redis_publish shard channel payload net in
            ground (
              arith,
              good,
              publish_there shards room payload net shard channel h,
              read_loop-send_all shards room username shard channel h frames sent.0
                  (note_error room sent.1 lines),
            )
      ]

  -- With at least one shard and fewer than 2 ^ 32, the read loop of a connection never panics,
  -- whatever the frames: it sends, in order and once each, the messages of exactly the frames that
  -- can be marshalled, whether or not sending another one failed, and all to the shard and the
  -- channel to which a subscriber of its room, and of no other room, listens. Every failure is a
  -- line of the log, the newest first.
  pub read_loop_lem :
      (shards : List C) (room username : Bytes) (frames : List Frame) (net : Net)
      → shards ≢ []
      → length shards < u32_mod
      → (shard : C) × (channel : Bytes) × (subscribe shards room ≡ some (shard, channel))
        × ((other : Bytes) (s : C) → subscribe shards other ≡ some (s, channel) → other ≡ room)
        × (read_loop marshal redis_publish shards room username frames net []
            ≡ some (send_all shard channel room (payloads room username frames) net []))
  read_loop_lem shards room username frames net n l =
      let (shard, channel, _, listens, alone) =
        publish-subscribe redis_publish shards room [] net n l in
      (
        shard,
        channel,
        listens,
        alone,
        read_loop-send_all shards room username shard channel listens frames net [],
      )
