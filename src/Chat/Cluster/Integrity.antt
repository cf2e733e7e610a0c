-- ===== src/Chat/Cluster/Integrity.antt =====
-- services/chat: what the connections of several pods get.
use mathlib.Core.List.{Mem, mem-cons_of_mem}
use vidcast.Base.{
  ℕ, ◌≡◌, sym, ◌∙◌, ap, subst, inl, inr, Bool, List, [], ◌∷◌, some, arith, Bytes, Result, ok,
  nat_eq, bytes_eq, ◌==◌, All, All-append, Bool-cases, if_cases, contains, length, ltb,
}
use vidcast.Base.Dict.{lookup}
use vidcast.Chat.Message.{Message}
use vidcast.Chat.Broker.Routing.{room_channel_injective}
use vidcast.Chat.Hub.{Client}
use vidcast.Chat.Hub.Members.{offered, after_offer}
use vidcast.Chat.Pod.{
  Pod, connect, subscribe, depart, close_send, write, end_writer, finish, Step, connects,
  subscribes, delivers, departs, closes, writes, ends_writer, finishes, new_pod, to_message, Reach,
  start, later,
}
use vidcast.Chat.Pod.Invariant.{Inv, Reach-Inv, broadcast_local_room-Inv}
use vidcast.Chat.Pod.Subscriptions.{Subs, Reach-Subs, listener-room}
use vidcast.Chat.Cluster.{
  Cluster, new_cluster, set_pod, delivery, OnChannel, Carried, ClusterStep, publishes, moves,
  ClusterReach, begins, continues,
}

module _ (marshal : Message → Result Bytes Bytes) where
  -- The payload of a message that was published to this room.
  abbrev pub Published : List Message → Bytes → Bytes → Type 0
  Published log name payload =
      (m : Message) × Mem m log × (m.room ≡ name) × (marshal m ≡ ok payload)

  -- All that the connection has been written, and all that waits for it, was published to its room.
  abbrev pub Heard : List Message → Pod → ℕ → Type 0
  Heard log p c =
      All (Published log (p.room_of c)) (p.wire c)
      × All (Published log (p.room_of c)) (p.clients c).send

  OnChannel-Published :
      (log : List Message) (name payload : Bytes)
      → OnChannel marshal log name payload
      → Published log name payload
  OnChannel-Published log name payload (m, mem, same, text) =
      (m, mem, room_channel_injective m.room name same, text)

  All-Published-more :
      (log : List Message) (m : Message) (name : Bytes) (xs : List Bytes)
      → All (Published log name) xs
      → All (Published (m ∷ log) name) xs
  All-Published-more log m name [] a = tt
  All-Published-more log m name (x ∷ xs) ((k, mem, e, t), a) =
      ((k, mem-cons_of_mem m mem, e, t), All-Published-more log m name xs a)

  offered-Published :
      (log : List Message) (name payload : Bytes) (c : Client)
      → Published log name payload
      → All (Published log name) c.send
      → All (Published log name) (offered payload c).send
  offered-Published log name payload c h a = elim (Bool-cases (ltb (length c.send) 16)) [
    | inl space ↦ rw space (All-append (Published log name) c.send (payload ∷ []) a (h, tt))
    | inr full ↦ rw full a
  ]

  delivered-Heard :
      (log : List Message) (p : Pod) (r : ℕ) (name payload : Bytes) (k : ℕ)
      → Inv p
      → Subs p
      → lookup r p.active ≡ some name
      → Published log name payload
      → Heard log p k
      → Heard log (record p { clients = after_offer payload (p.hub.heap r).clients p.clients }) k
  delivered-Heard log p r name payload k v u a h (w, s) =
      elim (Bool-cases (contains (p.hub.heap r).clients k)) [
        | inr out ↦ (w, rw out s)
        | inl m ↦
            let here : Published log (p.room_of k) payload =
              subst (λ (n : Bytes). Published log n payload)
                (sym (listener-room p r name k v u a m)) h in
            (w, rw m (offered-Published log (p.room_of k) payload (p.clients k) here s))
      ]

  written-Heard :
      (log : List Message) (p : Pod) (d : ℕ) (payload : Bytes) (rest : List Bytes) (success : Bool)
      → (p.clients d).send ≡ payload ∷ rest
      → (k : ℕ) → Heard log p k
      → Heard log (write p d payload rest success) k
  unfolding write
  written-Heard log p d payload rest success e k (w, s) = elim (Bool-cases (k == d)) [
    | inr other ↦ (ground (arith, other, w), ground (arith, other, s))
    | inl same ↦
        let P = Published log (p.room_of k) in
        let at : k ≡ d = ground (arith, same) in
        let sent : All P (payload ∷ rest) = subst (All P) (ap (λ j. (p.clients j).send) at ∙ e) s in
        let more = All-append P (p.wire k) (payload ∷ []) w (sent.0, tt) in
        (ground (arith, same, at, w, more), ground (arith, same, sent.1))
  ]

  connected-Heard :
      (log : List Message) (p : Pod) (room : Bytes) (k : ℕ)
      → Inv p
      → Subs p
      → Heard log p k
      → Heard log (connect p room) k
  unfolding connect
  connected-Heard log p room k v u (w, s) = elim (Bool-cases (k == p.next_client)) [
    | inr other ↦ (ground (arith, other, w), ground (arith, other, s))
    | inl same ↦
        (ground (arith, same, v.fresh p.next_client, u.silent p.next_client), ground (arith, same))
  ]

  Step-Heard :
      {p q : Pod} (log : List Message) (s : Step p q)
      → Carried marshal log (delivery s)
      → Inv p
      → Subs p
      → (k : ℕ) → Heard log p k
      → Heard log q k
  unfolding subscribe depart close_send end_writer finish
  Step-Heard {p} log (connects room n) c v u k h = connected-Heard log p room k v u h
  Step-Heard log (subscribes r name m) c v u k h = h
  Step-Heard {p} log (delivers r name payload clients a e) c v u k h =
      let same : after_offer payload (p.hub.heap r).clients p.clients ≡ clients =
        ground (arith, e, broadcast_local_room-Inv p r payload v) in
      subst (λ (cl : ℕ → Client). Heard log (record p { clients = cl }) k) same
        (delivered-Heard log p r name payload k v u a (OnChannel-Published log name payload c) h)
  Step-Heard log (departs c s) carried v u k h = h
  Step-Heard {p} log (closes c s) carried v u k h = (h.0, ground (arith, h.1))
  Step-Heard {p} log (writes d payload rest success r s) c v u k h =
      written-Heard log p d payload rest success s k h
  Step-Heard log (ends_writer c w s z) carried v u k h = h
  Step-Heard log (finishes c s w) carried v u k h = h

  record Intact (w : Cluster) : Type 0 where
    reach : (i : ℕ) → Reach (w.pods i)
    heard : (i c : ℕ) → Heard w.log (w.pods i) c

  new_cluster-Intact : Intact new_cluster
  unfolding new_cluster new_pod
  new_cluster-Intact = record { reach = λ i. start; heard = λ i c. (tt, tt) }

  -- One pod has moved.
  moved {ℓ} :
      (P : Pod → Type ℓ) (pods : ℕ → Pod) (i : ℕ) (q : Pod)
      → P q
      → ((j : ℕ) → P (pods j))
      → (j : ℕ) → P (set_pod pods i q j)
  moved P pods i q h k j = if_cases P (j == i) q (pods j) h (k j)

  ClusterStep-Intact : {w u : Cluster} → ClusterStep marshal w u → Intact w → Intact u
  ClusterStep-Intact {w} (publishes i c username frame payload now r e) v = record {
    reach = v.reach;
    heard = λ j k.
        let m = to_message ((w.pods i).room_of c) username frame now in
        let (old, waiting) = v.heard j k in
        (
          All-Published-more w.log m ((w.pods j).room_of k) ((w.pods j).wire k) old,
          All-Published-more w.log m ((w.pods j).room_of k) ((w.pods j).clients k).send waiting,
        );
  }
  ClusterStep-Intact {w} (moves i {q = q} s c) v = record {
    reach = moved Reach w.pods i q (later (v.reach i) s) v.reach;
    heard = λ j k.
        moved (λ p. Heard w.log p k) w.pods i q
          (Step-Heard w.log s c (Reach-Inv (v.reach i)) (Reach-Subs (v.reach i)) k (v.heard i k))
          (λ h. v.heard h k) j;
  }

  ClusterReach-Intact : {w : Cluster} → ClusterReach marshal w → Intact w
  ClusterReach-Intact begins = new_cluster-Intact
  ClusterReach-Intact (continues r s) = ClusterStep-Intact s (ClusterReach-Intact r)

  -- With any number of pods, whatever the interleaving of their steps and whatever Redis does with
  -- the messages, other than make one up or send one to another channel: all that any connection has
  -- been written, and all that waits for it, is the text of a message that a connection published to
  -- the same room.
  pub ClusterReach-Heard :
      {w : Cluster} → ClusterReach marshal w → (i c : ℕ) → Heard w.log (w.pods i) c
  ClusterReach-Heard r = (ClusterReach-Intact r).heard
