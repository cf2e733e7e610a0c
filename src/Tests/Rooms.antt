-- ===== src/Tests/Rooms.antt =====
-- A chat room with one connection, from its beginning to its end.
use vidcast.Base.{
  ◌++◌, ℕ, ◌≡◌, refl, ◌≢◌, false, none, some, [], ◌∷◌, Bytes, codes, nat_eq, bytes_eq,
}
use vidcast.Base.Dict.{lookup, insert}
use vidcast.Chat.Hub.{Client, broadcast_local_room, offer, offer_all, new_hub, join, update}
use vidcast.Chat.Hub.Members.{offered}
use vidcast.Chat.Pod.{
  Pod, new_pod, connect, subscribe, depart, Step, connects, subscribes, delivers, departs, Reach,
  start, later, stop, more,
}
use vidcast.Chat.Pod.Invariant.{Inv, Reach-Inv}
use vidcast.Chat.Pod.Delivery.{ReadsIn, never_panics, delivery_reaches}
use vidcast.Chat.Pod.Order.{Steps-history, history, arrived, received}
use vidcast.Chat.Pod.Ending.{close_send-Ends, Ends}

abbrev pub lobby : Bytes
lobby = codes "lobby"

abbrev pub hi : Bytes
hi = codes "hi"

abbrev pub open_room : Pod
open_room = subscribe (connect new_pod lobby) 0 lobby

abbrev pub greeted : ℕ → Client
greeted = update open_room.clients 0 (record { send = hi ∷ []; closed = false })

abbrev pub delivered : Pod
delivered = record open_room { clients = greeted }

abbrev left_room : Pod
left_room = depart delivered 0

open_room-Reach : Reach open_room
unfolding new_pod connect new_hub join lookup bytes_eq nat_eq
open_room-Reach = later (later start (connects lobby (λ e. cc))) (subscribes 0 lobby refl)

delivers_hi : Step open_room delivered
unfolding new_pod connect subscribe new_hub join lookup insert broadcast_local_room offer_all offer
    bytes_eq nat_eq
delivers_hi = delivers 0 lobby hi greeted refl refl

left_room-Reach : Reach left_room
unfolding new_pod connect subscribe new_hub join lookup bytes_eq nat_eq
left_room-Reach = later (later open_room-Reach delivers_hi) (departs 0 refl)

Reach-Inv_example : Inv left_room
Reach-Inv_example = Reach-Inv left_room-Reach

never_panics_example : broadcast_local_room left_room.hub 0 hi left_room.clients ≢ none
never_panics_example = (never_panics open_room-Reach left_room-Reach 0 lobby hi).0

delivery_reaches_example :
    (clients : ℕ → Client) × (broadcast_local_room open_room.hub 0 hi open_room.clients
      ≡ some clients)
    × ((k : ℕ) → ReadsIn open_room lobby k → clients k ≡ offered hi (open_room.clients k))
    × ((k : ℕ) → ¬ ReadsIn open_room lobby k → clients k ≡ open_room.clients k)
unfolding new_pod connect subscribe new_hub join lookup insert bytes_eq nat_eq
delivery_reaches_example = delivery_reaches open_room-Reach lobby 0 hi refl

Steps-history_example : history delivered 0 ≡ history open_room 0 ++ hi ∷ []
unfolding new_pod connect subscribe new_hub join lookup insert broadcast_local_room offer_all offer
    bytes_eq nat_eq arrived received
Steps-history_example =
    Steps-history open_room-Reach (more stop (delivers 0 lobby hi greeted refl refl)) 0 (λ e. cc)
      refl

close_send-Ends_example : Ends left_room 0 (hi ∷ [])
unfolding new_pod connect subscribe depart new_hub join lookup insert bytes_eq nat_eq
close_send-Ends_example = (close_send-Ends left_room 0 refl).0 refl
