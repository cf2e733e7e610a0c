-- ===== src/Streams/Store/Extensional.antt =====
-- store.go: `ListLive` on two layouts of the map.
use vidcast.Base.{
  ◌≡◌, refl, sym, ◌∙◌, true, false, List, [], ◌∷◌, arith, Bytes, contains, bytes_eq, str_lt,
  str_lt_irrefl, str_lt_total, All, Bool-cases, inl, inr,
}
use vidcast.Streams.Store.{Store, LiveChannel, list_live}
use vidcast.Streams.Store.Index.{IsValid}
use vidcast.Streams.Store.Listing.{
  slugs_of, IsAscending, AllLive, list_live_lem, above_trans, live_in,
}

-- A slug below every slug of the list is not in it.
contains-above :
    (k : Bytes) (ds : List LiveChannel)
    → All (λ d. str_lt k d.slug ≡ true) ds
    → contains (slugs_of ds) k ≡ false
contains-above k [] a = refl
contains-above k (d ∷ ds) a = ground (arith, contains-above k ds a.1, str_lt_irrefl k)

contains-head :
    (c : LiveChannel) (cs : List LiveChannel) → contains (slugs_of (c ∷ cs)) c.slug ≡ true
contains-head c cs = ground arith

-- The heads of two ascending lists with the same slugs are the same.
not-lt-head :
    (c d : LiveChannel) (cs ds : List LiveChannel)
    → IsAscending (d ∷ ds)
    → contains (slugs_of (d ∷ ds)) c.slug ≡ true
    → str_lt c.slug d.slug ≡ false
not-lt-head c d cs ds a h = elim (Bool-cases (str_lt c.slug d.slug)) [
  | inr ge ↦ ge
  | inl lt ↦ absurd (
      ground
        (arith, lt, h, contains-above c.slug (d ∷ ds) (lt, above_trans c.slug d.slug ds lt a.0)))
]

tails-agree :
    (c d : LiveChannel) (cs ds : List LiveChannel) (k : Bytes)
    → IsAscending (c ∷ cs)
    → IsAscending (d ∷ ds)
    → c.slug ≡ d.slug
    → contains (slugs_of (c ∷ cs)) k ≡ contains (slugs_of (d ∷ ds)) k
    → contains (slugs_of cs) k ≡ contains (slugs_of ds) k
tails-agree c d cs ds k a b same h =
    ground (arith, contains-above c.slug cs a.0, contains-above d.slug ds b.0)

cons-path :
    (c d : LiveChannel) (cs ds : List LiveChannel)
    → c.slug ≡ d.slug
    → c.live ≡ true
    → d.live ≡ true
    → cs ≡ ds
    → (c ∷ cs) ≡ (d ∷ ds)
cons-path c d cs ds s l m r = ground arith

ascending_ext :
    (cs ds : List LiveChannel)
    → IsAscending cs
    → IsAscending ds
    → AllLive cs
    → AllLive ds
    → ((k : Bytes) → contains (slugs_of cs) k ≡ contains (slugs_of ds) k)
    → cs ≡ ds
ascending_ext [] [] a b l m h = refl
ascending_ext [] (d ∷ ds) a b l m h = absurd (ground (arith, h d.slug))
ascending_ext (c ∷ cs) [] a b l m h = absurd (ground (arith, h c.slug))
ascending_ext (c ∷ cs) (d ∷ ds) a b l m h =
    let same : c.slug ≡ d.slug =
      str_lt_total c.slug d.slug (not-lt-head c d cs ds b (sym (h c.slug) ∙ contains-head c cs))
        (not-lt-head d c ds cs a (h d.slug ∙ contains-head d ds)) in
    cons-path c d cs ds same l.0 m.0
      (ascending_ext cs ds a.1 b.1 l.1 m.1 (λ k. tails-agree c d cs ds k a b same (h k)))

-- Two valid stores in which the same channels are live list them in the same order, however their
-- maps are laid out and whatever else they hold.
pub list_live-ext :
    (s t : Store)
    → IsValid s
    → IsValid t
    → ((k : Bytes) → live_in s.channels k ≡ live_in t.channels k)
    → list_live s ≡ list_live t
list_live-ext s t v w h =
    let (a, l, c) = list_live_lem s v in
    let (b, m, d) = list_live_lem t w in
    ascending_ext (list_live s) (list_live t) a b l m (λ k. c k ∙ h k ∙ sym (d k))
