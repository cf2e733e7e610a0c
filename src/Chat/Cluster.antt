-- ===== src/Chat/Cluster.antt =====
-- services/chat: several pods over one Redis. The log has the messages that connections have
-- published. Redis passes a message on to subscriptions of the channel to which it was sent, at any
-- time, any number of times or never, so nothing is assumed but that it makes up no message and
-- sends none to another channel.
pub mod Integrity
use mathlib.Core.List.{Mem}
use vidcast.Base.{
  ℕ, ◌≡◌, List, [], ◌∷◌, Option, none, some, Bytes, Result, ok, nat_eq, if◌then◌else◌, ◌==◌,
}
use vidcast.Chat.Message.{Message}
use vidcast.Chat.Broker.{room_channel}
use vidcast.Chat.Pod.{
  Pod, reading, new_pod, to_message, Step, connects, subscribes, delivers, departs, closes, writes,
  ends_writer, finishes,
}

pub record Cluster : Type 0 where
  pub pods : ℕ → Pod
  pub log : List Message

unfoldable pub new_cluster : Cluster
new_cluster = record { pods = λ i. new_pod; log = [] }

abbrev pub set_pod : (ℕ → Pod) → ℕ → Pod → ℕ → Pod
set_pod pods i p j = if j == i then p else pods j

-- The name that a delivery's subscription listens to, and the payload.
abbrev pub delivery : {p q : Pod} → Step p q → Option (Bytes × Bytes)
delivery (delivers r name payload clients a e) = some (name, payload)
delivery _ = none

module _ (marshal : Message → Result Bytes Bytes) where
  -- A message in the log that was sent to the channel of this name, with this payload.
  abbrev pub OnChannel : List Message → Bytes → Bytes → Type 0
  OnChannel log name payload =
      (m : Message) × Mem m log
      × (room_channel m.room ≡ room_channel name)
      × (marshal m ≡ ok payload)

  abbrev pub Carried : List Message → Option (Bytes × Bytes) → Type 0
  Carried log none = Unit
  Carried log (some (name, payload)) = OnChannel log name payload

  pub data ClusterStep (w : Cluster) : Cluster → Type 0 where
    -- A turn of the read loop of a connection.
    publishes :
        (i c : ℕ) (username frame payload : Bytes) (now : ℕ)
        → (w.pods i).stage c ≡ reading
        → marshal (to_message ((w.pods i).room_of c) username frame now) ≡ ok payload
        → ClusterStep w
            (record w { log = to_message ((w.pods i).room_of c) username frame now ∷ w.log })
    -- A step of one pod; a delivery brings a message of the log.
    moves :
        (i : ℕ) {q : Pod} (s : Step (w.pods i) q)
        → Carried w.log (delivery s)
        → ClusterStep w (record w { pods = set_pod w.pods i q })

  pub data ClusterReach : Cluster → Type 0 where
    begins : ClusterReach new_cluster
    continues : {w u : Cluster} → ClusterReach w → ClusterStep w u → ClusterReach u
