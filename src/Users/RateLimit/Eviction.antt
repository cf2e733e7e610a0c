-- ===== src/Users/RateLimit/Eviction.antt =====
-- rate_limit.py: eviction drops only buckets that are as good as new.
use vidcast.Base.{
  ltb, ℕ, ◌≤◌, ◌≡◌, refl, ◌∙◌, true, false, ◌⊎◌, inl, inr, Bool-cases, none, some, [], ◌∷◌, arith,
  Bytes, ◌==◌, bytes_eq, nat_eq,
}
use vidcast.Base.Dict.{Dict, lookup, NodupKeys}
use vidcast.Users.RateLimit.{
  Bucket, Limits, RateLimiter, new_bucket, is_stale, remove_stale, evict_stale, refreshed, attempt,
  check, reset, reset_all, Call, checks, resets, resets_all, step,
}

-- A stale bucket is as good as a new one.
pub refreshed-stale :
    (limits : Limits) (t now : ℕ) (b : Bucket)
    → t ≤ now
    → is_stale limits t b ≡ true
    → refreshed limits now b ≡ new_bucket now
refreshed-stale limits t now b h s = ground arith

pub refreshed-new :
    (limits : Limits) (now : ℕ) → refreshed limits now (new_bucket now) ≡ new_bucket now
refreshed-new limits now = ground arith

pub attempt-stale :
    (limits : Limits) (t now : ℕ) (b : Bucket)
    → t ≤ now
    → is_stale limits t b ≡ true
    → attempt limits now b ≡ attempt limits now (new_bucket now)
unfolding attempt
attempt-stale limits t now b h s =
    let free : ltb now b.locked_until ≡ false = ground arith in
    let unlocked : ltb now 0 ≡ false = ground arith in
    rw (free, unlocked, refreshed-stale limits t now b h s, refreshed-new limits now) refl

-- Eviction drops only stale buckets.
pub lookup-remove_stale :
    (limits : Limits) (now : ℕ) (k : Bytes) (d : Dict Bytes Bucket)
    → NodupKeys d
    → (lookup k (remove_stale limits now d) ≡ lookup k d)
      ⊎ ((lookup k (remove_stale limits now d) ≡ none)
          × ((b : Bucket) × (lookup k d ≡ some b) × (is_stale limits now b ≡ true)))
unfolding remove_stale lookup
lookup-remove_stale limits now k [] n = inl refl
lookup-remove_stale limits now k ((j, b) ∷ d) (fresh, n) =
    elim (lookup-remove_stale limits now k d n) [
      | inr (gone, (c, e, s)) ↦
          inr (ground (arith, gone, e, fresh), (c, ground (arith, e, fresh), s))
      | inl same ↦ elim (Bool-cases (is_stale limits now b)) [
        | inr kept ↦ inl (ground (arith, kept, same))
        | inl s ↦ elim (Bool-cases (k == j)) [
          | inl hit ↦ inr (ground (arith, s, hit, same, fresh), (b, ground (arith, hit), s))
          | inr miss ↦ inl (ground (arith, s, miss, same))
        ]
      ]
    ]

pub remove_stale-Nodup :
    (limits : Limits) (now : ℕ) (d : Dict Bytes Bucket)
    → NodupKeys d
    → NodupKeys (remove_stale limits now d)
unfolding remove_stale
remove_stale-Nodup limits now [] n = tt
remove_stale-Nodup limits now ((j, b) ∷ d) (fresh, n) =
    let keep : lookup j (remove_stale limits now d) ≡ none =
      elim (lookup-remove_stale limits now j d n) [
        | inl same ↦ same ∙ fresh
        | inr (gone, _) ↦ gone
      ] in
    ground (arith, keep, remove_stale-Nodup limits now d n)

-- The limits never change.
pub evict_stale-limits : (l : RateLimiter) (now : ℕ) → (evict_stale l now).limits ≡ l.limits
unfolding evict_stale
evict_stale-limits l now = ground arith

pub step-limits : (l : RateLimiter) (now : ℕ) (c : Call) → (step l now c).0.limits ≡ l.limits
unfolding step check reset reset_all
step-limits l now (checks key) = ground (arith, evict_stale-limits l now)
step-limits l now (resets key) = refl
step-limits l now resets_all = refl
