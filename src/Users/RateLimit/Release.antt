-- ===== src/Users/RateLimit/Release.antt =====
-- rate_limit.py: a lockout ends.
use vidcast.Base.{
  ℕ, ◌+◌, ◌%◌, ◌<◌, ◌≤◌, ◌≡◌, ◌∙◌, ◌⊎◌, inl, inr, Bool-cases, none, List, [], ◌∷◌, arith, Bytes, ok,
  err, ◌==◌, bytes_eq, nat_eq,
}
use vidcast.Base.Dict.{lookup, NodupKeys, insert-NodupKeys, delete-NodupKeys}
use vidcast.Users.RateLimit.Ideal.{after, after-limits}
use vidcast.Users.RateLimit.Eviction.{
  step-limits, lookup-remove_stale, remove_stale-Nodup, evict_stale-limits,
}
use vidcast.Users.RateLimit.Lockout.{LockedUntil, AllBefore, after-LockedUntil, check-LockedUntil}
use vidcast.Users.RateLimit.{
  Bucket, Limits, RateLimiter, new_bucket, evict_stale, bucket_at, attempt, check, reset, reset_all,
  Call, checks, resets, resets_all, step,
}

evict_stale-Nodup :
    (l : RateLimiter) (now : ℕ) → NodupKeys l.buckets → NodupKeys (evict_stale l now).buckets
unfolding evict_stale
evict_stale-Nodup l now n = ground (arith, remove_stale-Nodup l.limits now l.buckets n, n)

step-Nodup :
    (l : RateLimiter) (now : ℕ) (c : Call)
    → NodupKeys l.buckets
    → NodupKeys (step l now c).0.buckets
unfolding step check reset reset_all
step-Nodup l now (checks key) n =
    let m = evict_stale l now in
    insert-NodupKeys key (attempt m.limits now (bucket_at now (lookup key m.buckets))).0 m.buckets
      (evict_stale-Nodup l now n)
step-Nodup l now (resets key) n = delete-NodupKeys key l.buckets n
step-Nodup l now resets_all n = tt

after-Nodup :
    (l : RateLimiter) (cs : List (ℕ × Call)) → NodupKeys l.buckets → NodupKeys (after l cs).buckets
unfolding after
after-Nodup l [] n = n
after-Nodup l ((now, c) ∷ cs) n = after-Nodup (step l now c).0 cs (step-Nodup l now c n)

-- The lockout is over, or the bucket has been dropped.
evict_stale-found :
    (l : RateLimiter) (now u : ℕ) (key : Bytes)
    → NodupKeys l.buckets
    → LockedUntil l key u
    → (lookup key (evict_stale l now).buckets ≡ none) ⊎ LockedUntil (evict_stale l now) key u
unfolding evict_stale
evict_stale-found l now u key n (b, e, at) =
    elim (lookup-remove_stale l.limits now key l.buckets n) [
      | inl same ↦ inr (b, ground (arith, e, same), at)
      | inr (gone, _) ↦
          elim (Bool-cases ((l.eviction_counter + 1) % l.limits.eviction_sample_size == 0)) [
            | inl sampled ↦ inl (ground (arith, sampled, gone))
            | inr skipped ↦ inr (b, ground (arith, skipped, e), at)
          ]
    ]

attempt-free :
    (limits : Limits) (now u : ℕ) (b : Bucket)
    → 1 ≤ limits.max_attempts
    → 0 < u
    → u ≤ now
    → b.locked_until ≡ u
    → (attempt limits now b).1 ≡ ok tt
unfolding attempt
attempt-free limits now u b h p o e = ground arith

attempt-new :
    (limits : Limits) (now : ℕ)
    → 1 ≤ limits.max_attempts
    → (attempt limits now (new_bucket now)).1 ≡ ok tt
unfolding attempt
attempt-new limits now h = ground arith

freed :
    (l : RateLimiter) (now u : ℕ) (key : Bytes)
    → NodupKeys l.buckets
    → LockedUntil l key u
    → 1 ≤ l.limits.max_attempts
    → 0 < u
    → u ≤ now
    → (check l key now).1 ≡ ok tt
unfolding check
freed l now u key n s h p o =
    let same = evict_stale-limits l now in
    elim (evict_stale-found l now u key n s) [
      | inl gone ↦ ground (arith, gone, attempt-new (evict_stale l now).limits now (rw same h))
      | inr (b, e, at) ↦
          let free = attempt-free (evict_stale l now).limits now u b (rw same h) p o at in
          ground (arith, e, free)
    ]

waits :
    (limits : Limits) (now wait : ℕ) (b : Bucket)
    → 1 ≤ limits.lockout
    → (attempt limits now b).1 ≡ err wait
    → 1 ≤ wait
unfolding attempt
waits limits now wait b h e = ground (arith, e)

pub check-waits :
    (l : RateLimiter) (now wait : ℕ) (key : Bytes)
    → 1 ≤ l.limits.lockout
    → (check l key now).1 ≡ err wait
    → 1 ≤ wait
unfolding check
check-waits l now wait key h e =
    let m = evict_stale l now in
    waits m.limits now wait (bucket_at now (lookup key m.buckets)) (rw (evict_stale-limits l now) h)
      e

-- A refusal ends when it says: a check of the key at or after the time of the refusal plus the time
-- to wait is let through, whatever calls came before that time has passed, if none reset the key,
-- the maximum is not 0 and the lockout has a length.
pub refusal_ends :
    (l : RateLimiter) (now wait later : ℕ) (key : Bytes) (cs : List (ℕ × Call))
    → NodupKeys l.buckets
    → 1 ≤ l.limits.max_attempts
    → 1 ≤ l.limits.lockout
    → (check l key now).1 ≡ err wait
    → AllBefore (now + wait) key cs
    → now + wait ≤ later
    → (check (after (check l key now).0 cs) key later).1 ≡ ok tt
unfolding step
refusal_ends l now wait later key cs n h k e o p =
    let m = (check l key now).0 in
    let unchanged : (after m cs).limits ≡ l.limits =
      after-limits m cs ∙ step-limits l now (checks key) in
    freed (after m cs) later (now + wait) key (after-Nodup m cs (step-Nodup l now (checks key) n))
      (after-LockedUntil m (now + wait) key cs o (check-LockedUntil l now wait key e))
      (rw unchanged h) (omega (arith, check-waits l now wait key k e)) p
