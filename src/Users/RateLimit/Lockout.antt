-- ===== src/Users/RateLimit/Lockout.antt =====
-- rate_limit.py: a key that is locked out.
use vidcast.Base.{
  ℕ, ◌+◌, ◌-◌, ◌<◌, ◌≡◌, ◌≢◌, refl, false, inl, inr, Bool-cases, some, List, [], ◌∷◌, arith, Bytes,
  err, ◌==◌, bytes_eq, nat_eq,
}
use vidcast.Base.Dict.{Dict, lookup, lookup-insert, lookup-delete}
use vidcast.Users.RateLimit.Ideal.{after}
use vidcast.Users.RateLimit.{
  Bucket, Limits, RateLimiter, is_stale, remove_stale, evict_stale, bucket_at, attempt, check,
  reset, reset_all, Call, checks, resets, resets_all, step,
}

-- The key is locked out until this time.
abbrev pub LockedUntil : RateLimiter → Bytes → ℕ → Type 0
LockedUntil l key u = (b : Bucket) × (lookup key l.buckets ≡ some b) × (b.locked_until ≡ u)

kept :
    (limits : Limits) (now : ℕ) (k : Bytes) (b : Bucket) (d : Dict Bytes Bucket)
    → is_stale limits now b ≡ false
    → lookup k d ≡ some b
    → lookup k (remove_stale limits now d) ≡ some b
unfolding lookup remove_stale
kept limits now k b [] s e = cc
kept limits now k b ((j, c) ∷ d) s e = ground (arith, kept limits now k b d s)

pub evict_stale-LockedUntil :
    (l : RateLimiter) (now u : ℕ) (key : Bytes)
    → now < u
    → LockedUntil l key u
    → LockedUntil (evict_stale l now) key u
unfolding evict_stale
evict_stale-LockedUntil l now u key h (b, e, at) =
    let live : is_stale l.limits now b ≡ false = ground arith in
    (b, ground (arith, e, kept l.limits now key b l.buckets live e), at)

locked-attempt :
    (limits : Limits) (now u : ℕ) (b : Bucket)
    → now < u
    → b.locked_until ≡ u
    → attempt limits now b ≡ (b, err (u - now))
unfolding attempt
locked-attempt limits now u b h e = ground arith

-- The call does not reset the key.
abbrev pub Keeps : Bytes → Call → Type 0
Keeps key (checks k) = Unit
Keeps key (resets k) = k ≢ key
Keeps key resets_all = ⊥

-- Calls at times before this one that do not reset the key.
abbrev pub AllBefore : ℕ → Bytes → List (ℕ × Call) → Type 0
AllBefore u key [] = Unit
AllBefore u key ((now, c) ∷ cs) = (now < u) × Keeps key c × AllBefore u key cs

step-LockedUntil :
    (l : RateLimiter) (now u : ℕ) (key : Bytes) (c : Call)
    → now < u
    → Keeps key c
    → LockedUntil l key u
    → LockedUntil (step l now c).0 key u
unfolding step check reset reset_all
step-LockedUntil l now u key (checks k) h n s =
    let (b, e, at) = evict_stale-LockedUntil l now u key h s in
    let m = evict_stale l now in
    let free : now < b.locked_until = ground arith in
    let held = locked-attempt m.limits now b.locked_until b free refl in
    (
      b,
      elim (Bool-cases (key == k)) [
        | inl hit ↦ ground (arith, hit, e, held, lookup-insert key k b m.buckets)
        | inr miss ↦ ground (
          arith,
          miss,
          e,
          lookup-insert key k (attempt m.limits now (bucket_at now (lookup k m.buckets))).0
              m.buckets,
        )
      ],
      at,
    )
step-LockedUntil l now u key (resets k) h n (b, e, at) =
    (b, ground (arith, e, n, lookup-delete key k l.buckets), at)
step-LockedUntil l now u key resets_all h n s = absurd n

pub after-LockedUntil :
    (l : RateLimiter) (u : ℕ) (key : Bytes) (cs : List (ℕ × Call))
    → AllBefore u key cs
    → LockedUntil l key u
    → LockedUntil (after l cs) key u
unfolding after
after-LockedUntil l u key [] o s = s
after-LockedUntil l u key ((now, c) ∷ cs) (h, n, o) s =
    after-LockedUntil (step l now c).0 u key cs o (step-LockedUntil l now u key c h n s)

refused :
    (l : RateLimiter) (now u : ℕ) (key : Bytes)
    → now < u
    → LockedUntil l key u
    → (check l key now).1 ≡ err (u - now)
unfolding check
refused l now u key h s =
    let (b, e, at) = evict_stale-LockedUntil l now u key h s in
    ground (arith, e, locked-attempt (evict_stale l now).limits now u b h at)

exceeded :
    (limits : Limits) (now u : ℕ) (b : Bucket) (wait : ℕ)
    → (attempt limits now b).1 ≡ err wait
    → (attempt limits now b).0.locked_until ≡ now + wait
unfolding attempt
exceeded limits now u b wait e = ground (arith, e)

pub check-LockedUntil :
    (l : RateLimiter) (now wait : ℕ) (key : Bytes)
    → (check l key now).1 ≡ err wait
    → LockedUntil (check l key now).0 key (now + wait)
unfolding check
check-LockedUntil l now wait key e =
    let m = evict_stale l now in
    let b = attempt m.limits now (bucket_at now (lookup key m.buckets)) in
    (
      b.0,
      ground (arith, lookup-insert key key b.0 m.buckets),
      exceeded m.limits now 0 (bucket_at now (lookup key m.buckets)) wait e,
    )

-- A refusal is kept to: when a check is refused with the time to wait, every check of the key
-- before that time has passed is refused too, with the time that is left, whatever other calls come
-- in between, eviction included, if none resets the key.
pub refusal_holds :
    (l : RateLimiter) (now wait later : ℕ) (key : Bytes) (cs : List (ℕ × Call))
    → (check l key now).1 ≡ err wait
    → AllBefore (now + wait) key cs
    → later < now + wait
    → (check (after (check l key now).0 cs) key later).1 ≡ err (now + wait - later)
refusal_holds l now wait later key cs e o h =
    refused (after (check l key now).0 cs) later (now + wait) key h (
      after-LockedUntil (check l key now).0 (now + wait) key cs o
        (check-LockedUntil l now wait key e))
