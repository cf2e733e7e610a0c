-- ===== src/Chat/Pod/Ending.antt =====
-- handler.go: the end of a connection.
use vidcast.Base.{
  ℕ, ◌≡◌, refl, sym, ◌∙◌, ap, true, false, List, [], ◌∷◌, ◌++◌, append_assoc, append-nil, subst,
  arith, Bytes, nat_eq,
}
use vidcast.Chat.Hub.{update}
use vidcast.Chat.Pod.{
  Pod, departed, closing, ended, close_send, write, end_writer, finish, Step, closes, writes,
  ends_writer, finishes, Steps, stop, more,
}

Steps-cons : {p q r : Pod} → Step p q → Steps q r → Steps p r
Steps-cons s stop = more stop s
Steps-cons s (more ss t) = more (Steps-cons s ss) t

-- The connection is at its end, having written these messages.
abbrev pub Ends : Pod → ℕ → List Bytes → Type 0
Ends p c written = (q : Pod) × Steps p q × (q.stage c ≡ ended) × (q.wire c ≡ written)

Ends-cons :
    {p q : Pod} (c : ℕ) (written : List Bytes) → Step p q → Ends q c written → Ends p c written
Ends-cons c written s (q, ss, e, w) = (q, Steps-cons s ss, e, w)

update_self {ℓ} : {A : Type ℓ} (f : ℕ → A) (k : ℕ) (v : A) → update f k v k ≡ v
update_self f k v = ground arith

finish-Ends : (p : Pod) (c : ℕ) → p.stage c ≡ closing → p.writing c ≡ false → Ends p c (p.wire c)
unfolding finish
finish-Ends p c s w = (finish p c, more stop (finishes c s w), update_self p.stage c ended, refl)

record Draining (p : Pod) (c : ℕ) : Type 0 where
  stage : p.stage c ≡ closing
  closed : (p.clients c).closed ≡ true
  writing : p.writing c ≡ true

write-Draining :
    (p : Pod) (c : ℕ) (payload : Bytes) (rest : List Bytes)
    → Draining p c
    → Draining (write p c payload rest true) c
      × (((write p c payload rest true).clients c).send ≡ rest)
      × ((write p c payload rest true).wire c ≡ p.wire c ++ payload ∷ [])
unfolding write
write-Draining p c payload rest d = (
  record { stage = d.stage; closed = ground (arith, d.closed); writing = d.writing },
  ground arith,
  update_self p.wire c (p.wire c ++ payload ∷ []),
)

drain :
    (p : Pod) (c : ℕ) (xs : List Bytes)
    → (p.clients c).send ≡ xs
    → Draining p c
    → Ends p c (p.wire c ++ xs)
drain p c [] e d =
    let q = end_writer p c in
    Ends-cons c (p.wire c ++ []) (ends_writer c d.writing e d.closed) (
      subst (Ends q c) (sym (append-nil (p.wire c))) (
        unfold end_writer in
        finish-Ends (end_writer p c) c d.stage (update_self p.writing c false)))
drain p c (x ∷ xs) e d =
    let q = write p c x xs true in
    let (later, send, wire) = write-Draining p c x xs d in
    Ends-cons c (p.wire c ++ x ∷ xs) (writes c x xs true d.writing e) (
      subst (Ends q c) (ap (λ l. l ++ xs) wire ∙ append_assoc (p.wire c) (x ∷ []) xs)
        (drain q c xs send later))

-- Once the handler has left its room, it is never stuck on `<-writeDone`: from the close of the
-- channel there are steps to its end. If the writer still runs, it can write on the way all that
-- was in the buffer, in order.
pub close_send-Ends :
    (p : Pod) (c : ℕ)
    → p.stage c ≡ departed
    → ((p.writing c ≡ true) → Ends p c (p.wire c ++ (p.clients c).send))
      × ((p.writing c ≡ false) → Ends p c (p.wire c))
unfolding close_send
close_send-Ends p c s = (
  λ w. Ends-cons c (p.wire c ++ (p.clients c).send) (closes c s) (
      drain (close_send p c) c (p.clients c).send (ground arith)
        (record { stage = update_self p.stage c closing; closed = ground arith; writing = w })),
  λ w.
      Ends-cons c (p.wire c) (closes c s)
        (finish-Ends (close_send p c) c (update_self p.stage c closing) w),
)
