-- ===== src/Chat/Hub/Members.antt =====
-- hub.go: the client sets, and what one delivery does to every client.
use mathlib.Core.Path.{fun_ext}
use vidcast.Base.{
  ℕ, ◌≡◌, refl, true, false, not, ◌&&◌, ◌||◌, List, [], ◌∷◌, ◌++◌, some, arith, Bytes,
  if◌then◌else◌, ◌==◌, contains, nat_eq, length, ltb, ℕ_discrete, ap, ◌∙◌,
}
use vidcast.Chat.Hub.{Client, send_buffer, update, add_client, remove_client, offer, offer_all}

pub contains-add_client :
    (c : ℕ) (cs : List ℕ) (k : ℕ) → contains (add_client c cs) k ≡ (k == c || contains cs k)
unfolding add_client
contains-add_client c cs k = ground arith

pub contains-remove_client :
    (c : ℕ) (cs : List ℕ) (k : ℕ)
    → contains (remove_client c cs) k ≡ (not (k == c) && contains cs k)
unfolding remove_client
contains-remove_client c [] k = ground arith
contains-remove_client c (d ∷ ds) k = ground (arith, contains-remove_client c ds k)

-- The client after an offer that does not panic.
abbrev pub offered : Bytes → Client → Client
offered payload c =
    if ltb (length c.send) send_buffer then record c { send = c.send ++ payload ∷ [] } else c

abbrev pub NodupClients : List ℕ → Type 0
NodupClients [] = Unit
NodupClients (c ∷ cs) = (contains cs c ≡ false) × NodupClients cs

pub add_client-Nodup : (c : ℕ) (cs : List ℕ) → NodupClients cs → NodupClients (add_client c cs)
unfolding add_client
add_client-Nodup c cs n = ground arith

pub remove_client-Nodup :
    (c : ℕ) (cs : List ℕ) → NodupClients cs → NodupClients (remove_client c cs)
unfolding remove_client
remove_client-Nodup c [] n = tt
remove_client-Nodup c (d ∷ ds) n =
    ground (arith, remove_client-Nodup c ds n.1, contains-remove_client c ds d)

-- What a delivery leaves of the clients.
abbrev pub after_offer : Bytes → List ℕ → (ℕ → Client) → ℕ → Client
after_offer payload cs clients k = if contains cs k then offered payload (clients k) else clients k

abbrev pub AllOpen : List ℕ → (ℕ → Client) → Type 0
AllOpen cs clients = (k : ℕ) → contains cs k ≡ true → (clients k).closed ≡ false

after_offer-cons :
    (payload : Bytes) (c : ℕ) (cs : List ℕ) (clients : ℕ → Client) (k : ℕ)
    → contains cs c ≡ false
    → after_offer payload cs (update clients c (offered payload (clients c))) k
      ≡ after_offer payload (c ∷ cs) clients k
after_offer-cons payload c cs clients k n = elim (ℕ_discrete k c) [
  | yes e ↦ rw e (ground (arith, n))
  | no m ↦ ground (arith, m)
]

offer-open :
    (payload : Bytes) (c : Client) → c.closed ≡ false → offer payload c ≡ some (offered payload c)
unfolding offer
offer-open payload c o = ground arith

-- A delivery to open clients does not panic, and gives each of them the message at the end of its
-- buffer unless that is full; no other client changes.
pub offer_all-AllOpen :
    (payload : Bytes) (cs : List ℕ) (clients : ℕ → Client)
    → NodupClients cs
    → AllOpen cs clients
    → offer_all payload cs clients ≡ some (after_offer payload cs clients)
unfolding offer_all
offer_all-AllOpen payload [] clients n a = refl
offer_all-AllOpen payload (c ∷ cs) clients n a =
    let changed = update clients c (offered payload (clients c)) in
    let here : offer payload (clients c) ≡ some (offered payload (clients c)) =
      offer-open payload (clients c) (a c (ground arith)) in
    let rest : AllOpen cs changed = λ k m. ground (arith, a k, a c) in
    let ih = offer_all-AllOpen payload cs changed n.1 rest in
    let step = fun_ext (λ k. after_offer-cons payload c cs clients k n.0) in
    rw (here, offer_all) (ih ∙ ap some step)
