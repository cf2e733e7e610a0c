-- ===== src/Chat/Pod/Order.antt =====
-- handler.go: the order in which a connection's messages are written.
use vidcast.Base.{
  if◌then◌else◌, ◌&&◌, ℕ, ◌≡◌, refl, sym, ◌∙◌, ap, ◌≢◌, inl, inr, Bool, true, false, List, [], ◌∷◌,
  ◌++◌, append_assoc, append-nil, Bool-cases, arith, Bytes, subst, contains, nat_eq, bytes_eq,
  length, ltb,
}
use vidcast.Chat.Hub.{Client, send_buffer}
use vidcast.Chat.Hub.Members.{after_offer}
use vidcast.Chat.Pod.{
  Pod, unborn, connect, subscribe, depart, close_send, write, end_writer, finish, Step, connects,
  subscribes, delivers, departs, closes, writes, ends_writer, finishes, Reach, later, Steps, stop,
  more,
}
use vidcast.Chat.Pod.Invariant.{Inv, Reach-Inv, broadcast_local_room-Inv}

-- What a connection has written and what waits in its buffer, oldest first.
abbrev pub history : Pod → ℕ → List Bytes
history p c = p.wire c ++ (p.clients c).send

-- What a delivery adds for a client: the message, when the client is in the room and its buffer has
-- not run full.
abbrev pub taken : Pod → ℕ → Bytes → ℕ → List Bytes
taken p r payload c =
    if contains (p.hub.heap r).clients c && ltb (length (p.clients c).send) send_buffer
    then payload ∷ []
    else []

-- What these steps bring to the client, in their order.
unfoldable pub received : {p q : Pod} → Step p q → ℕ → List Bytes
received {p} (delivers r name payload clients a e) c = taken p r payload c
received (connects room n) c = []
received (subscribes r name m) c = []
received (departs d s) c = []
received (closes d s) c = []
received (writes d payload rest success r s) c = []
received (ends_writer d r s z) c = []
received (finishes d s r) c = []

unfoldable pub arrived : {p q : Pod} → Steps p q → ℕ → List Bytes
unfolding received
arrived stop c = []
arrived (more ss s) c = arrived ss c ++ received s c

unchanged : (old new : List Bytes) → new ≡ old → new ≡ old ++ []
unchanged old new e = e ∙ sym (append-nil old)

after_offer-taken :
    (payload : Bytes) (p : Pod) (r c : ℕ)
    → p.wire c ++ (after_offer payload (p.hub.heap r).clients p.clients c).send
      ≡ history p c ++ taken p r payload c
after_offer-taken payload p r c = elim (Bool-cases (contains (p.hub.heap r).clients c)) [
  | inl here ↦ elim (Bool-cases (ltb (length (p.clients c).send) send_buffer)) [
    | inl room_left ↦
        ground (arith, here, room_left, append_assoc (p.wire c) (p.clients c).send (payload ∷ []))
    | inr full ↦ ground (arith, here, full, append-nil (history p c))
  ]
  | inr elsewhere ↦ ground (arith, elsewhere, append-nil (history p c))
]

write-history :
    (p : Pod) (d c : ℕ) (payload : Bytes) (rest : List Bytes) (success : Bool)
    → (p.clients d).send ≡ payload ∷ rest
    → (write p d payload rest success).writing c ≡ true
    → history (write p d payload rest success) c ≡ history p c
unfolding write
write-history p d c payload rest true e w =
    ground (arith, e, append_assoc (p.wire c) (payload ∷ []) rest)
write-history p d c payload rest false e w = ground (arith, e, w)

Step-history :
    {p q : Pod} (s : Step p q)
    → Inv p
    → (c : ℕ) → p.stage c ≢ unborn
    → q.writing c ≡ true
    → history q c ≡ history p c ++ received s c
unfolding connect subscribe depart close_send end_writer finish received
Step-history {p} {q} (connects room n) v c b w =
    unchanged (history p c) (history q c) (ground (arith, v.fresh p.next_client, b))
Step-history {p} {q} (subscribes r name m) v c b w = unchanged (history p c) (history q c) refl
Step-history {p} {q} (delivers r name payload clients a e) v c b w =
    let same : after_offer payload (p.hub.heap r).clients p.clients ≡ clients =
      ground (arith, e, broadcast_local_room-Inv p r payload v) in
    subst (λ (cl : ℕ → Client). p.wire c ++ (cl c).send ≡ history p c ++ taken p r payload c) same
      (after_offer-taken payload p r c)
Step-history {p} {q} (departs d s) v c b w = unchanged (history p c) (history q c) refl
Step-history {p} {q} (closes d s) v c b w = unchanged (history p c) (history q c) (ground arith)
Step-history {p} {q} (writes d payload rest success r s) v c b w =
    unchanged (history p c) (history q c) (write-history p d c payload rest success s w)
Step-history {p} {q} (ends_writer d r s z) v c b w = unchanged (history p c) (history q c) refl
Step-history {p} {q} (finishes d s r) v c b w = unchanged (history p c) (history q c) refl

-- A writer that has ended does not come back, and a connection stays born.
Step-born :
    {p q : Pod}
    → Step p q
    → Inv p
    → (c : ℕ) → p.stage c ≢ unborn
    → (q.stage c ≢ unborn) × (q.writing c ≡ true → p.writing c ≡ true)
unfolding connect subscribe depart close_send write end_writer finish
Step-born {p} (connects room n) v c b =
    (ground (arith, b), λ w. ground (arith, w, v.fresh p.next_client, b))
Step-born (subscribes r name m) v c b = (b, λ w. w)
Step-born (delivers r name payload clients a e) v c b = (b, λ w. w)
Step-born (departs d s) v c b = (ground (arith, b), λ w. w)
Step-born (closes d s) v c b = (ground (arith, b), λ w. w)
Step-born (writes d payload rest success r s) v c b = (b, λ w. ground (arith, w))
Step-born (ends_writer d r s z) v c b = (b, λ w. ground (arith, w))
Step-born (finishes d s r) v c b = (ground (arith, b), λ w. w)

Steps-Reach : {p q : Pod} → Reach p → Steps p q → Reach q
Steps-Reach a stop = a
Steps-Reach a (more ss s) = later (Steps-Reach a ss) s

Steps-born : {p q : Pod} → Reach p → Steps p q → (c : ℕ) → p.stage c ≢ unborn → q.stage c ≢ unborn
Steps-born a stop c b = b
Steps-born a (more ss s) c b =
    (Step-born s (Reach-Inv (Steps-Reach a ss)) c (Steps-born a ss c b)).0

-- As long as its writer runs, what a connection has written and what waits in its buffer grows by
-- exactly the messages that are delivered to its room meanwhile, in the order of the deliveries and
-- each of them once, but for those that find sixteen messages in the buffer: nothing else is
-- written, nothing is written twice, and nothing is lost from the buffer.
pub Steps-history :
    {p q : Pod}
    → Reach p
    → (ss : Steps p q) → (c : ℕ) → p.stage c ≢ unborn
    → q.writing c ≡ true
    → history q c ≡ history p c ++ arrived ss c
unfolding arrived
Steps-history {p} a stop c b w = unchanged (history p c) (history p c) refl
Steps-history {p} a (more ss s) c b w =
    let v = Reach-Inv (Steps-Reach a ss) in
    let born = Steps-born a ss c b in
    Step-history s v c born w
    ∙ ap (λ h. h ++ received s c) (Steps-history a ss c b ((Step-born s v c born).1 w))
    ∙ append_assoc (history p c) (arrived ss c) (received s c)
