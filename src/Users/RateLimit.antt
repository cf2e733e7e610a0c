-- ===== src/Users/RateLimit.antt =====
-- services/users/app/rate_limit.py: the limiter of attempts. Times are natural numbers of ticks,
-- where the source has floats; a difference is written as a sum on the other side. Every method
-- holds the lock while it reads or writes, and is one step.
pub mod Ideal
pub mod Eviction
pub mod Simulation
pub mod Lockout
pub mod Budget
pub mod Release
use vidcast.Base.{
  ℕ, ◌<◌, ◌+◌, ◌-◌, ◌*◌, ◌%◌, Bool, not, ◌&&◌, List, [], ◌∷◌, Option, none, some, Bytes, Result, ok,
  err, if◌then◌else◌, ◌==◌, ltb, leb, nat_eq, bytes_eq,
}
use vidcast.Base.Dict.{Dict, lookup, insert, delete}

-- `_Bucket`.
pub record Bucket : Type 0 where
  pub count : ℕ
  pub window_start : ℕ
  pub locked_until : ℕ

-- The arguments of the constructor. The sample size is not 0, by which Python would not divide.
pub record Limits : Type 0 where
  pub max_attempts : ℕ
  pub window : ℕ
  pub lockout : ℕ
  pub eviction_sample_size : ℕ
  pub can_sample : 0 < eviction_sample_size

pub record RateLimiter : Type 0 where
  pub limits : Limits
  pub buckets : Dict Bytes Bucket
  pub eviction_counter : ℕ

unfoldable pub new_limiter : Limits → RateLimiter
new_limiter limits = record { limits = limits; buckets = []; eviction_counter = 0 }

abbrev pub new_bucket : ℕ → Bucket
new_bucket now = record { count = 0; window_start = now; locked_until = 0 }

-- The test of `_evict_stale`.
abbrev pub is_stale : Limits → ℕ → Bucket → Bool
is_stale limits now b = leb b.locked_until now && ltb (b.window_start + limits.window * 2) now

unfoldable pub remove_stale : Limits → ℕ → Dict Bytes Bucket → Dict Bytes Bucket
remove_stale limits now [] = []
remove_stale limits now ((k, b) ∷ d) =
    let rest = remove_stale limits now d in if is_stale limits now b then rest else (k, b) ∷ rest

-- `_evict_stale`.
unfoldable pub evict_stale : RateLimiter → ℕ → RateLimiter
evict_stale l now =
    let counter = l.eviction_counter + 1 in
    if counter % l.limits.eviction_sample_size == 0
    then record l { eviction_counter = counter; buckets = remove_stale l.limits now l.buckets }
    else record l { eviction_counter = counter }

abbrev pub bucket_at : ℕ → Option Bucket → Bucket
bucket_at now none = new_bucket now
bucket_at now (some b) = b

-- The bucket at an attempt that is not locked out.
abbrev pub refreshed : Limits → ℕ → Bucket → Bucket
refreshed limits now b =
    if not (b.locked_until == 0)
    then new_bucket now
    else if leb (b.window_start + limits.window) now
    then record b { window_start = now; count = 0 }
    else b

abbrev pub counted : Limits → ℕ → Bucket → Bucket × Result ℕ (Unit {0})
counted limits now b =
    if ltb limits.max_attempts b.count
    then (record b { locked_until = now + limits.lockout }, err limits.lockout)
    else (b, ok tt)

-- What `check` does to the bucket of the key; the error is `retry_after`.
unfoldable pub attempt : Limits → ℕ → Bucket → Bucket × Result ℕ (Unit {0})
attempt limits now b =
    if ltb now b.locked_until
    then (b, err (b.locked_until - now))
    else let c = refreshed limits now b in counted limits now (record c { count = c.count + 1 })

-- `check`.
unfoldable pub check : RateLimiter → Bytes → ℕ → RateLimiter × Result ℕ (Unit {0})
unfolding evict_stale attempt
check l key now =
    let m = evict_stale l now in
    let (b, reply) = attempt m.limits now (bucket_at now (lookup key m.buckets)) in
    (record m { buckets = insert key b m.buckets }, reply)

-- `reset`.
unfoldable pub reset : RateLimiter → Bytes → RateLimiter
reset l key = record l { buckets = delete key l.buckets }

-- `reset_all`.
unfoldable pub reset_all : RateLimiter → RateLimiter
reset_all l = record l { buckets = [] }

pub data Call : Type 0 where
  checks resets : Bytes → Call
  resets_all : Call

unfoldable pub step : RateLimiter → ℕ → Call → RateLimiter × Option (Result ℕ (Unit {0}))
step l now (checks key) = let (m, reply) = check l key now in (m, some reply)
step l now (resets key) = (reset l key, none)
step l now resets_all = (reset_all l, none)

abbrev pub Reply : Type 0
Reply = Option (Result ℕ (Unit {0}))

-- The calls at their times, and the replies to the checks.
unfoldable pub replies : RateLimiter → List (ℕ × Call) → List Reply
replies l [] = []
replies l ((now, c) ∷ cs) = let (m, reply) = step l now c in reply ∷ replies m cs
