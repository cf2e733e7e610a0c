-- ===== src/Users/RateLimit/Ideal.antt =====
-- rate_limit.py against a limiter that forgets nothing: a bucket for every key that was checked
-- since its last reset. There is no eviction and no counter.
use vidcast.Users.RateLimit.Eviction.{step-limits}
use vidcast.Base.{
  ℕ, ◌≤◌, ◌≡◌, refl, ◌∙◌, Option, none, some, List, [], ◌∷◌, Bytes, if◌then◌else◌, ◌==◌, bytes_eq,
  nat_eq,
}
use vidcast.Users.RateLimit.{
  Bucket, Limits, RateLimiter, bucket_at, attempt, Call, checks, resets, resets_all, Reply, step,
}

abbrev pub Ideal : Type 0
Ideal = Bytes → Option Bucket

abbrev pub set : Ideal → Bytes → Option Bucket → Ideal
set f k b j = if j == k then b else f j

abbrev pub ideal_step : Limits → Ideal → ℕ → Call → Ideal × Reply
ideal_step limits f now (checks key) =
    let (b, reply) = attempt limits now (bucket_at now (f key)) in (set f key (some b), some reply)
ideal_step limits f now (resets key) = (set f key none, none)
ideal_step limits f now resets_all = (λ k. none, none)

unfoldable pub ideal_replies : Limits → Ideal → List (ℕ × Call) → List Reply
ideal_replies limits f [] = []
ideal_replies limits f ((now, c) ∷ cs) =
    let (g, reply) = ideal_step limits f now c in reply ∷ ideal_replies limits g cs

-- No call is earlier than the one before it, nor than this time.
abbrev pub InOrder : ℕ → List (ℕ × Call) → Type 0
InOrder t [] = Unit
InOrder t ((now, c) ∷ cs) = (t ≤ now) × InOrder now cs

-- The limiter after the calls.
unfoldable pub after : RateLimiter → List (ℕ × Call) → RateLimiter
after l [] = l
after l ((now, c) ∷ cs) = after (step l now c).0 cs

pub after-limits : (l : RateLimiter) (cs : List (ℕ × Call)) → (after l cs).limits ≡ l.limits
unfolding after
after-limits l [] = refl
after-limits l ((now, c) ∷ cs) = after-limits (step l now c).0 cs ∙ step-limits l now c

-- The time of the last call.
abbrev pub last : ℕ → List (ℕ × Call) → ℕ
last t [] = t
last t ((now, _) ∷ cs) = last now cs
