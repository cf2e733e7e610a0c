-- ===== src/Chat/Pod/Invariant.antt =====
-- handler.go and hub.go: what holds of a pod at all times, whatever the interleaving.
use vidcast.Base.{
  ℕ, ◌≤◌, ◌≡◌, refl, true, List, [], ◌∷◌, none, some, arith, Bytes, nat_eq, bytes_eq, length,
  length-append, ◌⊎◌, inl, inr, Bool-cases, subst,
}
use vidcast.Base.Dict.{lookup, lookup-insert, lookup-delete}
use vidcast.Chat.Hub.{Client, send_buffer, join, leave, broadcast_local_room}
use vidcast.Chat.Hub.Members.{offered, after_offer, AllOpen, offer_all-AllOpen}
use vidcast.Chat.Pod.{
  Pod, Stage, unborn, closing, ended, new_pod, connect, subscribe, depart, close_send, write,
  end_writer, finish, Step, connects, subscribes, delivers, departs, closes, writes, ends_writer,
  finishes, Reach, start, later,
}
use vidcast.Chat.Pod.Rooms.{HubInv, new_hub-Retires, join-HubInv, leave-HubInv, stage-HubInv}

abbrev pub CanClose : Stage → Type 0
CanClose s = (s ≡ closing) ⊎ (s ≡ ended)

-- Either the call of `subscribe` is still to come, or the room has its subscription.
abbrev pub IsSubscribed : Pod → Bytes → ℕ → Type 0
IsSubscribed p n r =
    (lookup r p.pending ≡ some n) ⊎ ((lookup r p.pending ≡ none) × (lookup r p.active ≡ some n))

pub record Inv (p : Pod) : Type 0 where
  pub hub_inv : HubInv p.hub p.stage p.room_of
  pub fresh : (c : ℕ) → p.next_client ≤ c → p.stage c ≡ unborn
  -- A channel is closed only after its client has left.
  pub closed_late : (c : ℕ) → (p.clients c).closed ≡ true → CanClose (p.stage c)
  pub bounded : (c : ℕ) → length (p.clients c).send ≤ send_buffer
  -- For a current room `subscribe` is still to be called with its name, or has been.
  pub subscribed : (n : Bytes) (r : ℕ) → lookup n p.hub.rooms ≡ some r → IsSubscribed p n r

new_pod-Inv : Inv new_pod
unfolding new_pod lookup
new_pod-Inv = record {
  hub_inv = record {
    member = λ r c m. ground arith;
    present = λ c s. ground arith;
    current = λ n r l. ground arith;
    retires = new_hub-Retires;
    one_name = λ n m r l k. ground arith;
    nodup = λ r. tt;
  };
  fresh = λ c l. refl;
  closed_late = λ c e. ground arith;
  bounded = λ c. omega arith;
  subscribed = λ n r l. ground arith;
}

-- The clients of any room are open.
pub room-AllOpen : (p : Pod) (r : ℕ) → Inv p → AllOpen (p.hub.heap r).clients p.clients
room-AllOpen p r v k m = elim (Bool-cases (p.clients k).closed) [
  | inr open_ ↦ open_
  | inl shut ↦ absurd (ground (arith, v.closed_late k shut, v.hub_inv.member r k m))
]

-- So no delivery panics, and it leaves the clients as `after_offer` says.
pub broadcast_local_room-Inv :
    (p : Pod) (r : ℕ) (payload : Bytes)
    → Inv p
    → broadcast_local_room p.hub r payload p.clients
      ≡ some (after_offer payload (p.hub.heap r).clients p.clients)
unfolding broadcast_local_room
broadcast_local_room-Inv p r payload v =
    offer_all-AllOpen payload (p.hub.heap r).clients p.clients (v.hub_inv.nodup r)
      (room-AllOpen p r v)

offered-closed : (payload : Bytes) (c : Client) → (offered payload c).closed ≡ c.closed
offered-closed payload c = ground arith

offered-bounded :
    (payload : Bytes) (c : Client)
    → length c.send ≤ send_buffer
    → length (offered payload c).send ≤ send_buffer
offered-bounded payload c h = ground (arith, length-append c.send (payload ∷ []))

deliver-Inv :
    (p : Pod) (cs : List ℕ) (payload : Bytes)
    → Inv p
    → Inv (record p { clients = after_offer payload cs p.clients })
deliver-Inv p cs payload v = record {
  hub_inv = v.hub_inv;
  fresh = v.fresh;
  closed_late = λ c e. ground (arith, v.closed_late c, offered-closed payload (p.clients c));
  bounded = λ c. ground (arith, v.bounded c, offered-bounded payload (p.clients c));
  subscribed = v.subscribed;
}

-- A new room waits for its call of `subscribe`.
connect-IsSubscribed :
    (p : Pod) (room : Bytes)
    → Inv p
    → (n : Bytes) (r : ℕ) → lookup n (connect p room).hub.rooms ≡ some r
    → IsSubscribed (connect p room) n r
unfolding connect join lookup
connect-IsSubscribed p room v n r l =
    grind (arith, v.subscribed n r, v.hub_inv.current n r, lookup-insert)

subscribe-IsSubscribed :
    (p : Pod) (r : ℕ) (name : Bytes)
    → lookup r p.pending ≡ some name
    → Inv p
    → (n : Bytes) (s : ℕ) → lookup n p.hub.rooms ≡ some s
    → IsSubscribed (subscribe p r name) n s
unfolding subscribe lookup
subscribe-IsSubscribed p r name m v n s l = grind (arith, v.subscribed n s, lookup-delete)

depart-IsSubscribed :
    (p : Pod) (c : ℕ)
    → Inv p
    → (n : Bytes) (r : ℕ) → lookup n (depart p c).hub.rooms ≡ some r
    → IsSubscribed (depart p c) n r
unfolding depart leave
depart-IsSubscribed p c v n r l = grind (arith, v.subscribed n r, lookup-delete)

-- Every step of a connection, a subscription or a writer keeps the invariant.
pub Step-Inv : {p q : Pod} → Step p q → Inv p → Inv q
unfolding connect subscribe depart close_send write end_writer finish
Step-Inv {p} (connects room n) v = record {
  hub_inv =
      join-HubInv p.hub p.stage p.room_of v.hub_inv room p.next_client
        (ground (arith, v.fresh p.next_client));
  fresh = λ c l. ground (arith, v.fresh c);
  closed_late = λ c e. ground (arith, v.closed_late c);
  bounded = λ c. ground (arith, v.bounded c);
  subscribed = connect-IsSubscribed p room v;
}
Step-Inv {p} (subscribes r name m) v = record {
  hub_inv = v.hub_inv;
  fresh = v.fresh;
  closed_late = v.closed_late;
  bounded = v.bounded;
  subscribed = subscribe-IsSubscribed p r name m v;
}
Step-Inv {p} (delivers r name payload clients a e) v =
    subst (λ cl. Inv (record p { clients = cl }))
      (ground (arith, e, broadcast_local_room-Inv p r payload v))
      (deliver-Inv p (p.hub.heap r).clients payload v)
Step-Inv {p} (departs c s) v = record {
  hub_inv = leave-HubInv p.hub p.stage p.room_of v.hub_inv c s;
  fresh = λ k l. ground (arith, v.fresh k);
  closed_late = λ k e. ground (arith, v.closed_late k);
  bounded = v.bounded;
  subscribed = depart-IsSubscribed p c v;
}
Step-Inv {p} (closes c s) v = record {
  hub_inv =
      stage-HubInv p.hub p.stage p.room_of v.hub_inv c closing (ground (arith, s)) (ground arith);
  fresh = λ k l. ground (arith, v.fresh k);
  closed_late = λ k e. ground (arith, v.closed_late k);
  bounded = λ k. ground (arith, v.bounded k, v.bounded c);
  subscribed = v.subscribed;
}
Step-Inv {p} (writes c payload rest success w s) v = record {
  hub_inv = v.hub_inv;
  fresh = v.fresh;
  closed_late = λ k e. ground (arith, v.closed_late k);
  bounded = λ k. ground (arith, v.bounded k, v.bounded c, s);
  subscribed = v.subscribed;
}
Step-Inv (ends_writer c w s z) v = record {
  hub_inv = v.hub_inv;
  fresh = v.fresh;
  closed_late = v.closed_late;
  bounded = v.bounded;
  subscribed = v.subscribed;
}
Step-Inv {p} (finishes c s w) v = record {
  hub_inv =
      stage-HubInv p.hub p.stage p.room_of v.hub_inv c ended (ground (arith, s)) (ground arith);
  fresh = λ k l. ground (arith, v.fresh k);
  closed_late = λ k e. ground (arith, v.closed_late k);
  bounded = v.bounded;
  subscribed = v.subscribed;
}

-- At all times, whatever the interleaving of connections, subscriptions and writers: a client in a
-- room is in its read loop and the room is the current one of its name, a connection in its read
-- loop is in the current room of its name, a current room has a client, its context is not
-- cancelled, and either the call of `subscribe` with its name is still to come or it has been made,
-- the subscription of every other room is cancelled, no two names share a room, a channel is closed
-- only after its client has left, and no buffer holds more than 16 messages.
pub Reach-Inv : {p : Pod} → Reach p → Inv p
Reach-Inv start = new_pod-Inv
Reach-Inv (later r s) = Step-Inv s (Reach-Inv r)
