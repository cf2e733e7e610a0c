-- ===== src/Chat/Pod/Delivery.antt =====
-- hub.go and handler.go: who gets a message.
use mathlib.Core.Path.{fun_ext}
use vidcast.Base.{
  ℕ, ◌≡◌, ◌∙◌, ap, ◌≢◌, inl, inr, none, some, Option-cases, arith, Bytes, nat_eq, bytes_eq,
}
use vidcast.Base.Dict.{lookup}
use vidcast.Chat.Hub.{Client, broadcast_local_room, broadcast_local}
use vidcast.Chat.Hub.Members.{offered, after_offer}
use vidcast.Chat.Pod.{Pod, reading, Reach}
use vidcast.Chat.Pod.Invariant.{Reach-Inv, broadcast_local_room-Inv}

-- A reading connection in the room of this name.
abbrev pub ReadsIn : Pod → Bytes → ℕ → Type 0
ReadsIn p n k = (p.stage k ≡ reading) × (p.room_of k ≡ n)

-- No delivery ever panics, also when other steps come between the two halves of `broadcastLocal`:
-- no message is sent on a closed channel.
pub never_panics :
    {p q : Pod}
    → Reach p
    → Reach q
    → (r : ℕ) (name payload : Bytes)
    → (broadcast_local_room q.hub r payload q.clients ≢ none)
      × (broadcast_local p.hub q.hub name payload q.clients ≢ none)
unfolding broadcast_local
never_panics {p} {q} a b r name payload =
    let v = Reach-Inv b in
    (
      λ e. ground (arith, e, broadcast_local_room-Inv q r payload v),
      λ e. elim (Option-cases (lookup name p.hub.rooms)) [
        | inl missing ↦ ground (arith, e, missing)
        | inr (s, found) ↦ ground (arith, e, found, broadcast_local_room-Inv q s payload v)
      ],
    )

-- A delivery through the subscription of a room whose name has another room by now, or none,
-- changes nothing: the clients of the new room do not get the message.
pub stale_delivery :
    {p : Pod}
    → Reach p
    → (r : ℕ) (payload : Bytes) → ((n : Bytes) → lookup n p.hub.rooms ≢ some r)
    → broadcast_local_room p.hub r payload p.clients ≡ some p.clients
stale_delivery {p} a r payload gone =
    let v = Reach-Inv a in
    broadcast_local_room-Inv p r payload v
    ∙ ap some (fun_ext λ k. ground (arith, v.hub_inv.member r k, gone (p.room_of k)))

-- A delivery to the current room of a name reaches exactly the connections that read in the room of
-- this name: each gets the message at the end of its buffer, or loses it if the buffer is full, and
-- every other client is as before.
pub delivery_reaches :
    {p : Pod}
    → Reach p
    → (n : Bytes) (r : ℕ) (payload : Bytes) → lookup n p.hub.rooms ≡ some r
    → (clients : ℕ → Client) × (broadcast_local_room p.hub r payload p.clients ≡ some clients)
      × ((k : ℕ) → ReadsIn p n k → clients k ≡ offered payload (p.clients k))
      × ((k : ℕ) → ¬ ReadsIn p n k → clients k ≡ p.clients k)
delivery_reaches {p} a n r payload l =
    let v = Reach-Inv a in
    (
      after_offer payload (p.hub.heap r).clients p.clients,
      broadcast_local_room-Inv p r payload v,
      λ k (s, e). ground (arith, v.hub_inv.present k s, l, e),
      λ k m. ground (arith, m, l, v.hub_inv.member r k, v.hub_inv.one_name n (p.room_of k) r),
    )
