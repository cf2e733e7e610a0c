-- ===== src/Chat/Pod.antt =====
-- services/chat/handler.go: the connections of one pod. A connection has a reader (the handler
-- itself) and a writer goroutine; subscriptions deliver on their own. What they do between two
-- accesses to shared state is one step, and the steps of all of them interleave in any order.
pub mod Rooms
pub mod Invariant
pub mod Subscriptions
pub mod Delivery
pub mod Order
pub mod Ending
use vidcast.Base.{
  ℕ, suc, ◌≡◌, ◌≢◌, Bool, true, false, List, [], ◌∷◌, ◌++◌, Option, none, some, Bytes, codes,
  Result, ok, err, if◌then◌else◌, ◌==◌, contains, nat_eq, bytes_eq,
}
use vidcast.Base.Dict.{Dict, lookup, delete}
use vidcast.Go.Http.{Request, Response, http_error}
use vidcast.Chat.Message.{Message}
use vidcast.Chat.Hub.{Client, Hub, update, new_hub, join, leave, broadcast_local_room}

-- `newWebSocketHandler` up to the upgrade: the room and the user, or the answer.
unfoldable pub accept : Request → Result Response (Bytes × Bytes)
accept r =
    let room = r.query (codes "room") in
    let username = r.query (codes "username") in
    if room == []
    then err (http_error (codes "room query parameter is required") 400)
    else ok (room, if username == [] then codes "anonymous" else username)

-- The message that the reader publishes for one frame.
abbrev pub to_message : Bytes → Bytes → Bytes → ℕ → Message
to_message room username frame now = record {
  room = room;
  username = username;
  body = frame;
  sent_at = now;
}

-- Where the handler of a connection stands: before it exists, in its read loop, after `hub.leave`,
-- after `close(c.send)`, and after its end.
pub data Stage : Type 0 where
  unborn reading departed closing ended : Stage

pub record Pod : Type 0 where
  pub hub : Hub
  pub clients : ℕ → Client
  pub stage : ℕ → Stage
  pub room_of : ℕ → Bytes
  pub next_client : ℕ
  -- Rooms for which `join` has still to call `subscribe`, and rooms with a subscription, each with
  -- the name that is subscribed to. A subscription may deliver after its context is cancelled.
  pub pending : Dict ℕ Bytes
  pub active : Dict ℕ Bytes
  -- The writer goroutines that run, and what they have written.
  pub writing : ℕ → Bool
  pub wire : ℕ → List Bytes

abbrev pub idle_client : Client
idle_client = record { send = []; closed = false }

unfoldable pub new_pod : Pod
unfolding new_hub
new_pod = record {
  hub = new_hub;
  clients = λ _. idle_client;
  stage = λ _. unborn;
  room_of = λ _. [];
  next_client = 0;
  pending = [];
  active = [];
  writing = λ _. false;
  wire = λ _. [];
}

abbrev note_new : Option ℕ → Bytes → Dict ℕ Bytes → Dict ℕ Bytes
note_new none room rs = rs
note_new (some r) room rs = (r, room) ∷ rs

-- From `c := &client{…}` to the start of the goroutines; `subscribe` is a step of its own.
unfoldable pub connect : Pod → Bytes → Pod
connect p room =
    let c = p.next_client in
    let (hub, new) = join p.hub room c in
    record p {
      hub = hub;
      clients = update p.clients c idle_client;
      stage = update p.stage c reading;
      room_of = update p.room_of c room;
      next_client = suc c;
      pending = note_new new room p.pending;
      writing = update p.writing c true;
    }

unfoldable pub subscribe : Pod → ℕ → Bytes → Pod
subscribe p r name = record p { active = (r, name) ∷ p.active; pending = delete r p.pending }

-- `hub.leave(room, c)` after the read loop.
unfoldable pub depart : Pod → ℕ → Pod
depart p c = record p { hub = leave p.hub (p.room_of c) c; stage = update p.stage c departed }

-- `close(c.send)`.
unfoldable pub close_send : Pod → ℕ → Pod
close_send p c = record p {
  clients = update p.clients c (record (p.clients c) { closed = true });
  stage = update p.stage c closing;
}

-- The writer takes the oldest message, and writes it or fails.
unfoldable pub write : Pod → ℕ → Bytes → List Bytes → Bool → Pod
write p c payload rest success = record p {
  clients = update p.clients c (record (p.clients c) { send = rest });
  wire = if success then update p.wire c (p.wire c ++ payload ∷ []) else p.wire;
  writing = if success then p.writing else update p.writing c false;
}

-- The writer's `range` ends, which closes `writeDone`.
unfoldable pub end_writer : Pod → ℕ → Pod
end_writer p c = record p { writing = update p.writing c false }

-- The handler's end, after `<-writeDone`.
unfoldable pub finish : Pod → ℕ → Pod
finish p c = record p { stage = update p.stage c ended }

pub data Step (p : Pod) : Pod → Type 0 where
  connects : (room : Bytes) → room ≢ [] → Step p (connect p room)
  subscribes : (r : ℕ) (name : Bytes) → lookup r p.pending ≡ some name → Step p (subscribe p r name)
  delivers :
      (r : ℕ) (name payload : Bytes) (clients : ℕ → Client)
      → lookup r p.active ≡ some name
      → broadcast_local_room p.hub r payload p.clients ≡ some clients
      → Step p (record p { clients = clients })
  departs : (c : ℕ) → p.stage c ≡ reading → Step p (depart p c)
  closes : (c : ℕ) → p.stage c ≡ departed → Step p (close_send p c)
  writes :
      (c : ℕ) (payload : Bytes) (rest : List Bytes) (success : Bool)
      → p.writing c ≡ true
      → (p.clients c).send ≡ payload ∷ rest
      → Step p (write p c payload rest success)
  ends_writer :
      (c : ℕ)
      → p.writing c ≡ true
      → (p.clients c).send ≡ []
      → (p.clients c).closed ≡ true
      → Step p (end_writer p c)
  finishes : (c : ℕ) → p.stage c ≡ closing → p.writing c ≡ false → Step p (finish p c)

pub data Reach : Pod → Type 0 where
  start : Reach new_pod
  later : {p q : Pod} → Reach p → Step p q → Reach q

-- Any number of steps.
pub data Steps (p : Pod) : Pod → Type 0 where
  stop : Steps p p
  more : {q r : Pod} → Steps p q → Step q r → Steps p r
