-- ===== src/Chat/Hub.antt =====
-- services/chat/hub.go: the rooms of a pod and their local clients. Rooms and clients are reached
-- through pointers that a subscription keeps beyond the life of a room, so they stand in an explicit
-- heap: a number is an address. Every method holds the mutex while it reads or writes, and is one
-- step here; `broadcast_local` takes it twice.
pub mod Members
use vidcast.Base.{
  ℕ, suc, ◌+◌, Bool, true, false, not, List, [], ◌∷◌, ◌++◌, Option, none, some, Bytes,
  if◌then◌else◌, ◌==◌, contains, nat_eq, bytes_eq, length, ltb,
}
use vidcast.Base.Dict.{Dict, lookup, insert, delete}

-- The buffer of the channel `send`, and whether it is closed.
pub record Client : Type 0 where
  pub send : List Bytes
  pub closed : Bool

-- `make(chan []byte, 16)` of handler.go.
abbrev pub send_buffer : ℕ
send_buffer = 16

pub record Room : Type 0 where
  -- The keys of the map `clients`, in the order of a visit.
  pub clients : List ℕ
  pub cancelled : Bool

abbrev pub update {ℓ} : {A : Type ℓ} → (ℕ → A) → ℕ → A → ℕ → A
update f k v j = if j == k then v else f j

pub record Hub : Type 0 where
  pub rooms : Dict Bytes ℕ
  pub heap : ℕ → Room
  -- The next address for a room.
  pub next_room : ℕ

abbrev pub no_room : Room
no_room = record { clients = []; cancelled = false }

-- `newHub`.
unfoldable pub new_hub : Hub
new_hub = record { rooms = []; heap = λ _. no_room; next_room = 0 }

-- `r.clients[c] = struct{}{}`.
unfoldable pub add_client : ℕ → List ℕ → List ℕ
add_client c cs = if contains cs c then cs else c ∷ cs

-- `delete(r.clients, c)`.
unfoldable pub remove_client : ℕ → List ℕ → List ℕ
remove_client c [] = []
remove_client c (d ∷ ds) = let rest = remove_client c ds in if c == d then rest else d ∷ rest

abbrev pub is_empty : List ℕ → Bool
is_empty [] = true
is_empty (c ∷ cs) = false

-- `join`. The address is that of a new room, for which the caller then subscribes, after the mutex
-- is released.
unfoldable pub join : Hub → Bytes → ℕ → Hub × Option ℕ
unfolding add_client
join h room_name c = elim (lookup room_name h.rooms) [
  | some r ↦
      let room = h.heap r in
      (
        record h { heap = update h.heap r (record room { clients = add_client c room.clients }) },
        none,
      )
  | none ↦ (
    record {
      rooms = insert room_name h.next_room h.rooms;
      heap = update h.heap h.next_room (record { clients = c ∷ []; cancelled = false });
      next_room = suc h.next_room;
    },
    some h.next_room,
  )
]

-- `leave`.
unfoldable pub leave : Hub → Bytes → ℕ → Hub
unfolding remove_client
leave h room_name c = elim (lookup room_name h.rooms) [
  | none ↦ h
  | some r ↦
      let left = remove_client c (h.heap r).clients in
      if is_empty left
      then record h {
        heap = update h.heap r (record { clients = left; cancelled = true });
        rooms = delete room_name h.rooms;
      }
      else record h { heap = update h.heap r (record (h.heap r) { clients = left }) }
]

-- `select { case c.send <- payload: default: }`. A send on a closed channel panics: `none`.
unfoldable pub offer : Bytes → Client → Option Client
offer payload c =
    if c.closed
    then none
    else if ltb (length c.send) send_buffer
    then some (record c { send = c.send ++ payload ∷ [] })
    else some c

-- The loop of `broadcastLocalRoom`.
unfoldable pub offer_all : Bytes → List ℕ → (ℕ → Client) → Option (ℕ → Client)
offer_all payload [] clients = some clients
offer_all payload (c ∷ cs) clients = elim (offer payload (clients c)) [
  | none ↦ none
  | some offered ↦ offer_all payload cs (update clients c offered)
]

-- `broadcastLocalRoom`.
unfoldable pub broadcast_local_room : Hub → ℕ → Bytes → (ℕ → Client) → Option (ℕ → Client)
broadcast_local_room h r payload clients = offer_all payload (h.heap r).clients clients

-- `broadcastLocal`: the lookup on `h`, and the delivery on the hub `later`, after other methods.
unfoldable pub broadcast_local : Hub → Hub → Bytes → Bytes → (ℕ → Client) → Option (ℕ → Client)
broadcast_local h later room_name payload clients = elim (lookup room_name h.rooms) [
  | none ↦ some clients
  | some r ↦ broadcast_local_room later r payload clients
]
