-- ===== src/Chat/Pod/Subscriptions.antt =====
-- hub.go: subscriptions and the names that they listen to.
use vidcast.Base.{
  contains, ℕ, ◌≤◌, ◌<◌, ◌≡◌, refl, ◌∷◌, true, false, none, some, [], arith, Bytes, nat_eq,
  bytes_eq,
}
use vidcast.Base.Dict.{Dict, lookup, delete, lookup-insert, lookup-delete}
use vidcast.Chat.Hub.{Hub, join, leave}
use vidcast.Chat.Pod.{
  Pod, note_new, unborn, new_pod, connect, subscribe, depart, close_send, write, end_writer, finish,
  Step, connects, subscribes, delivers, departs, closes, writes, ends_writer, finishes, Reach,
  start, later,
}
use vidcast.Chat.Pod.Invariant.{Inv, Reach-Inv}

-- The rooms of these calls have been made, and stand under these names if they are current.
pub record Named (h : Hub) (calls : Dict ℕ Bytes) : Type 0 where
  pub same : (r : ℕ) (n m : Bytes) → lookup r calls ≡ some m → lookup n h.rooms ≡ some r → n ≡ m
  pub young : (r : ℕ) → h.next_room ≤ r → lookup r calls ≡ none

pub record Subs (p : Pod) : Type 0 where
  pub waiting : Named p.hub p.pending
  pub listening : Named p.hub p.active
  pub silent : (c : ℕ) → p.stage c ≡ unborn → (p.wire c ≡ []) × (p.writing c ≡ false)

-- Current rooms have been made.
abbrev HubBelow : Hub → Type 0
HubBelow h = (n : Bytes) (r : ℕ) → lookup n h.rooms ≡ some r → r < h.next_room

join-Named :
    (h : Hub) (name : Bytes) (c : ℕ) (calls : Dict ℕ Bytes)
    → Named h calls
    → Named (join h name c).0 calls
unfolding join
join-Named h name c calls v = record {
  same = λ r n m e l. grind (arith, v.same r n m, v.young r, lookup-insert);
  young = λ r l. ground (arith, v.young r);
}

-- The call of `subscribe` that a new room still needs.
join-waiting :
    (h : Hub) (name : Bytes) (c : ℕ) (calls : Dict ℕ Bytes)
    → HubBelow h
    → Named h calls
    → Named (join h name c).0 (note_new (join h name c).1 name calls)
unfolding join lookup
join-waiting h name c calls b v = record {
  same = λ r n m e l. grind (arith, v.same r n m, v.young r, b n r, lookup-insert);
  young = λ r l. ground (arith, v.young r);
}

leave-Named :
    (h : Hub) (name : Bytes) (c : ℕ) (calls : Dict ℕ Bytes)
    → Named h calls
    → Named (leave h name c) calls
unfolding leave
leave-Named h name c calls v = record {
  same = λ r n m e l. grind (arith, v.same r n m, lookup-delete);
  young = λ r l. ground (arith, v.young r);
}

delete-Named : (h : Hub) (r : ℕ) (calls : Dict ℕ Bytes) → Named h calls → Named h (delete r calls)
delete-Named h r calls v = record {
  same = λ s n m e l. grind (arith, v.same s n m, lookup-delete);
  young = λ s l. grind (arith, v.young s, lookup-delete);
}

cons-Named :
    (h : Hub) (r : ℕ) (name : Bytes) (from to : Dict ℕ Bytes)
    → Named h from
    → lookup r from ≡ some name
    → Named h to
    → Named h ((r, name) ∷ to)
unfolding lookup
cons-Named h r name from to v e w = record {
  same = λ s n m f l. ground (arith, w.same s n m, v.same r n name, e);
  young = λ s l. ground (arith, w.young s, v.young r, e);
}

new_pod-Subs : Subs new_pod
unfolding new_pod lookup
new_pod-Subs = record {
  waiting = record { same = λ r n m e l. ground arith; young = λ r l. refl };
  listening = record { same = λ r n m e l. ground arith; young = λ r l. refl };
  silent = λ c e. (refl, refl);
}

Step-Subs : {p q : Pod} → Step p q → Inv p → Subs p → Subs q
unfolding connect subscribe depart close_send write end_writer finish
Step-Subs {p} (connects room n) v u = record {
  waiting =
      join-waiting p.hub room p.next_client p.pending (λ n r l. (v.hub_inv.current n r l).2)
        u.waiting;
  listening = join-Named p.hub room p.next_client p.active u.listening;
  silent = λ c e. ground (arith, u.silent c);
}
Step-Subs {p} (subscribes r name m) v u = record {
  waiting = delete-Named p.hub r p.pending u.waiting;
  listening = cons-Named p.hub r name p.pending p.active u.waiting m u.listening;
  silent = u.silent;
}
Step-Subs (delivers r name payload clients a e) v u = record {
  waiting = u.waiting;
  listening = u.listening;
  silent = u.silent;
}
Step-Subs {p} (departs c s) v u = record {
  waiting = leave-Named p.hub (p.room_of c) c p.pending u.waiting;
  listening = leave-Named p.hub (p.room_of c) c p.active u.listening;
  silent = λ k e. ground (arith, u.silent k, s);
}
Step-Subs {p} (closes c s) v u = record {
  waiting = u.waiting;
  listening = u.listening;
  silent = λ k e. ground (arith, u.silent k, s);
}
Step-Subs {p} (writes c payload rest success w s) v u = record {
  waiting = u.waiting;
  listening = u.listening;
  silent = λ k e. ground (arith, u.silent k, u.silent c, w);
}
Step-Subs (ends_writer c w s z) v u = record {
  waiting = u.waiting;
  listening = u.listening;
  silent = λ k e. ground (arith, u.silent k);
}
Step-Subs {p} (finishes c s w) v u = record {
  waiting = u.waiting;
  listening = u.listening;
  silent = λ k e. ground (arith, u.silent k, s);
}

pub Reach-Subs : {p : Pod} → Reach p → Subs p
Reach-Subs start = new_pod-Subs
Reach-Subs (later r s) = Step-Subs s (Reach-Inv r) (Reach-Subs r)

-- A subscription delivers to connections of the room that it listens to.
pub listener-room :
    (p : Pod) (r : ℕ) (name : Bytes) (k : ℕ)
    → Inv p
    → Subs p
    → lookup r p.active ≡ some name
    → contains (p.hub.heap r).clients k ≡ true
    → p.room_of k ≡ name
listener-room p r name k v u a m =
    u.listening.same r (p.room_of k) name a (v.hub_inv.member r k m).1
