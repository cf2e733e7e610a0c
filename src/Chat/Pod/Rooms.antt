-- ===== src/Chat/Pod/Rooms.antt =====
-- hub.go and handler.go: the rooms of a pod and the connections that read in them.
use vidcast.Base.{
  ◌==◌, Option-cases, ◌⊎◌, inl, inr, Bool-cases, ℕ, ◌<◌, ◌≡◌, refl, ◌≢◌, Bool, true, false, List,
  [], ◌∷◌, none, some, arith, Bytes, contains, nat_eq, bytes_eq,
}
use vidcast.Base.Dict.{lookup, lookup-insert, lookup-delete}
use vidcast.Chat.Hub.{new_hub, Hub, update, is_empty, join, leave, remove_client}
use vidcast.Chat.Hub.Members.{
  contains-add_client, contains-remove_client, NodupClients, add_client-Nodup, remove_client-Nodup,
}
use vidcast.Chat.Pod.{Stage, reading, departed}

-- The client is in the room that stands under the name.
abbrev pub in_room : Hub → Bytes → ℕ → Bool
in_room h name c = elim (lookup name h.rooms) [
  | none ↦ false
  | some r ↦ contains (h.heap r).clients c
]

-- A room that has been made is the current one of some name, or its subscription is cancelled.
abbrev pub Retires : Hub → Type 0
Retires h =
    (r : ℕ)
    → r < h.next_room
    → ((h.heap r).cancelled ≡ true) ⊎ ((n : Bytes) × (lookup n h.rooms ≡ some r))

pub new_hub-Retires : Retires new_hub
unfolding new_hub
new_hub-Retires r l = absurd (omega (arith, l))

join-Retires : (h : Hub) (name : Bytes) (c : ℕ) → Retires h → Retires (join h name c).0
unfolding join
join-Retires h name c v r l = elim (Option-cases (lookup name h.rooms)) [
  | inr (s, found) ↦ elim (v r (ground (arith, found, l))) [
    | inl e ↦ inl (ground (arith, found, e))
    | inr (n, e) ↦ inr (n, ground (arith, found, e))
  ]
  | inl missing ↦ elim (Bool-cases (r == h.next_room)) [
    | inl same ↦ inr (name, grind (arith, missing, same, lookup-insert))
    | inr old ↦ elim (v r (ground (arith, missing, old, l))) [
      | inl e ↦ inl (ground (arith, missing, old, e))
      | inr (n, e) ↦ inr (n, grind (arith, missing, old, e, lookup-insert))
    ]
  ]
]

leave-Retires : (h : Hub) (name : Bytes) (c : ℕ) → Retires h → Retires (leave h name c)
unfolding leave
leave-Retires h name c v r l = elim (Option-cases (lookup name h.rooms)) [
  | inl missing ↦ elim (v r (ground (arith, missing, l))) [
    | inl e ↦ inl (ground (arith, missing, e))
    | inr (n, e) ↦ inr (n, ground (arith, missing, e))
  ]
  | inr (s, found) ↦ elim (v r (ground (arith, found, l))) [
    | inl e ↦ inl (ground (arith, found, e))
    | inr (n, e) ↦ elim (Bool-cases (is_empty (remove_client c (h.heap s).clients))) [
      | inr stays ↦ inr (n, ground (arith, found, stays, e))
      | inl gone ↦ elim (Bool-cases (r == s)) [
        | inl same ↦ inl (ground (arith, found, gone, same))
        | inr other ↦ inr (n, grind (arith, found, gone, other, e, lookup-delete))
      ]
    ]
  ]
]

pub record HubInv (h : Hub) (stage : ℕ → Stage) (room_of : ℕ → Bytes) : Type 0 where
  -- A client in a room, current or not, is in its read loop, and the room is the current one of its
  -- name.
  pub member :
      (r c : ℕ)
      → contains (h.heap r).clients c ≡ true
      → (stage c ≡ reading) × (lookup (room_of c) h.rooms ≡ some r)
  -- A connection in its read loop is in the current room of its name.
  pub present : (c : ℕ) → stage c ≡ reading → in_room h (room_of c) c ≡ true
  -- The context of a current room is not cancelled, and it has a client.
  pub current :
      (n : Bytes) (r : ℕ)
      → lookup n h.rooms ≡ some r
      → ((h.heap r).cancelled ≡ false) × (is_empty (h.heap r).clients ≡ false) × (r < h.next_room)
  -- No subscription outlives its room.
  pub retires : Retires h
  pub one_name :
      (n m : Bytes) (r : ℕ) → lookup n h.rooms ≡ some r → lookup m h.rooms ≡ some r → n ≡ m
  pub nodup : (r : ℕ) → NodupClients (h.heap r).clients

-- Nobody else is left when the last client goes.
last_client :
    (c : ℕ) (cs : List ℕ) (k : ℕ)
    → is_empty (remove_client c cs) ≡ true
    → k ≢ c
    → contains cs k ≡ false
unfolding remove_client
last_client c [] k e n = refl
last_client c (d ∷ ds) k e n = ground (arith, last_client c ds k)

module _ (h : Hub) (stage : ℕ → Stage) (room_of : ℕ → Bytes) (v : HubInv h stage room_of)
    (name : Bytes) (c : ℕ) (new : stage c ≢ reading) where
  pub join-HubInv : HubInv (join h name c).0 (update stage c reading) (update room_of c name)
  unfolding join
  join-HubInv = record {
    member = λ r k m. grind (
      arith,
      v.member r k,
      v.member r c,
      v.current (room_of k),
      contains-add_client,
      lookup-insert,
    );
    present = λ k s.
        grind (arith, v.present k, v.current (room_of k), contains-add_client, lookup-insert);
    current = λ n r l. grind (arith, v.current n r, contains-add_client, lookup-insert);
    retires = join-Retires h name c v.retires;
    one_name =
        λ n m r l k. grind (arith, v.one_name n m r, v.current n r, v.current m r, lookup-insert);
    nodup = λ r. grind (arith, v.nodup r, add_client-Nodup);
  }

module _ (h : Hub) (stage : ℕ → Stage) (room_of : ℕ → Bytes) (v : HubInv h stage room_of) (c : ℕ)
    (here : stage c ≡ reading) where
  pub leave-HubInv : HubInv (leave h (room_of c) c) (update stage c departed) room_of
  unfolding leave
  leave-HubInv = record {
    member = λ r k m. grind (
      arith,
      v.member r k,
      v.current (room_of c),
      v.one_name (room_of c) (room_of k),
      contains-remove_client,
      lookup-delete,
    );
    present = λ k s. grind (
      arith,
      v.present k,
      v.current (room_of c),
      v.one_name (room_of c) (room_of k),
      contains-remove_client,
      lookup-delete,
      last_client c,
    );
    current = λ n r l.
        grind
          (arith, v.current n r, v.one_name (room_of c) n r, contains-remove_client, lookup-delete);
    retires = leave-Retires h (room_of c) c v.retires;
    one_name = λ n m r l k. grind (arith, v.one_name n m r, lookup-delete);
    nodup = λ r. grind (arith, v.nodup r, remove_client-Nodup);
  }

pub stage-HubInv :
    (h : Hub) (stage : ℕ → Stage) (room_of : ℕ → Bytes)
    → HubInv h stage room_of
    → (c : ℕ) (s : Stage) → stage c ≢ reading
    → s ≢ reading
    → HubInv h (update stage c s) room_of
stage-HubInv h stage room_of v c s n m = record {
  member = λ r k e. grind (arith, v.member r k);
  present = λ k e. grind (arith, v.present k);
  current = v.current;
  retires = v.retires;
  one_name = v.one_name;
  nodup = v.nodup;
}
