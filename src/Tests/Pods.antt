-- ===== src/Tests/Pods.antt =====
-- A message between the connections of two pods.
use mathlib.Core.List.{mem-cons_self}
use vidcast.Base.{ℕ, refl, [], ◌∷◌, Bytes, codes, Result, ok, nat_eq, bytes_eq}
use vidcast.Base.Dict.{lookup, insert}
use vidcast.Chat.Message.{Message}
use vidcast.Chat.Hub.{broadcast_local_room, offer, offer_all, new_hub, join}
use vidcast.Chat.Pod.{Pod, new_pod, connect, subscribe, connects, subscribes, delivers, to_message}
use vidcast.Chat.Cluster.{
  Cluster, new_cluster, set_pod, publishes, moves, ClusterReach, begins, continues,
}
use vidcast.Chat.Cluster.Integrity.{ClusterReach-Heard, Heard}
use vidcast.Tests.Rooms.{lobby, hi, open_room, delivered, greeted}

abbrev marshal : Message → Result Bytes Bytes
marshal m = ok m.body

abbrev connected : Pod
connected = connect new_pod lobby

-- Pod 0 has a connection that reads, and pod 1 another with a subscription.
abbrev met : ℕ → Pod
met = set_pod (set_pod (set_pod (λ i. new_pod) 0 connected) 1 connected) 1 open_room

abbrev greeting : Message
greeting = to_message lobby (codes "ann") hi 7

abbrev heard : Cluster
heard = record { pods = set_pod met 1 delivered; log = greeting ∷ [] }

met-Reach : ClusterReach marshal (record { pods = met; log = [] })
unfolding new_cluster new_pod connect subscribe new_hub join lookup bytes_eq nat_eq
met-Reach =
    continues
      (continues (continues begins (moves 0 (connects lobby (λ e. cc)) tt))
        (moves 1 (connects lobby (λ e. cc)) tt))
      (moves 1 (subscribes 0 lobby refl) tt)

heard-Reach : ClusterReach marshal heard
unfolding new_pod connect subscribe new_hub join broadcast_local_room offer_all offer lookup insert
    bytes_eq nat_eq
heard-Reach =
    continues (continues met-Reach (publishes 0 0 (codes "ann") hi hi 7 refl refl))
      (moves 1 (delivers 0 lobby hi greeted refl refl) (greeting, mem-cons_self, refl, refl))

ClusterReach-Heard_example : Heard marshal heard.log (heard.pods 1) 0
ClusterReach-Heard_example = ClusterReach-Heard marshal heard-Reach 1 0
