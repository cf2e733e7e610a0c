-- ===== src/Users/Auth/RetryAfter.antt =====
-- auth.py: the header `Retry-After`.
use native.Mathlib.Nat.{lt-div-mul-add, div-mul-le_self}
use vidcast.Base.{
  ◌⊎◌, ℕ, ◌+◌, ◌-◌, ◌*◌, ◌<◌, ◌≤◌, ◌≡◌, ap, bytes_eq, inl, inr, Bool-cases, ltb, false,
  Result-cases, List, [], ◌∷◌, arith, ok, err,
}
use vidcast.Base.Dict.{NodupKeys}
use vidcast.Users.Text.{Str}
use vidcast.Users.RateLimit.{RateLimiter, Call, check}
use vidcast.Users.RateLimit.Ideal.{after}
use vidcast.Users.RateLimit.Lockout.{AllBefore, refusal_holds}
use vidcast.Users.RateLimit.Release.{refusal_ends, check-waits}
use vidcast.Users.Auth.{too_many, ceil, enforce}

ceil_bounds :
    (hz ticks : ℕ) → 1 ≤ hz → (ticks ≤ ceil hz ticks * hz) × (ceil hz ticks * hz < ticks + hz)
ceil_bounds hz ticks h =
    let above = lt-div-mul-add {a = ticks + (hz - 1)} {b = hz} h in
    let below = div-mul-le_self (ticks + (hz - 1)) hz in
    (omega (arith, above, h), omega (arith, below, h))

AllBefore-later :
    (u v : ℕ) (key : Str) (cs : List (ℕ × Call)) → u ≤ v → AllBefore u key cs → AllBefore v key cs
AllBefore-later u v key [] h a = tt
AllBefore-later u v key ((now, c) ∷ cs) h (i, k, a) =
    (omega arith, k, AllBefore-later u v key cs h a)

ltb-false : (a b : ℕ) → ltb a b ≡ false → b ≤ a
ltb-false a b h = ground arith

enforce_err :
    (hz now n : ℕ) (l : RateLimiter) (key : Str)
    → (enforce hz l key now).1 ≡ err (too_many n)
    → (wait : ℕ) × ((check l key now).1 ≡ err wait)
      × (n ≡ ceil hz wait)
      × ((enforce hz l key now).0 ≡ (check l key now).0)
unfolding enforce
enforce_err hz now n l key e = elim (Result-cases (check l key now).1) [
  | inl (wait, x) ↦ (wait, x, ground (arith, x, e), ground (arith, x))
  | inr (_, x) ↦ absurd (ground (arith, x, e))
]

enforce_ok :
    (hz now : ℕ) (l : RateLimiter) (key : Str)
    → (check l key now).1 ≡ ok tt
    → (enforce hz l key now).1 ≡ ok tt
unfolding enforce
enforce_ok hz now l key e = ground (arith, e)

enforce_refused :
    (hz now wait : ℕ) (l : RateLimiter) (key : Str)
    → (check l key now).1 ≡ err wait
    → (m : ℕ) × ((enforce hz l key now).1 ≡ err (too_many m))
unfolding enforce
enforce_refused hz now wait l key e = (ceil hz wait, ground (arith, e))

-- `Retry-After` is the time to wait: after an answer 429 that names n seconds, a request of the
-- same key is let through n seconds later or at any time after, and until a second before it is
-- refused, if what is asked in between is asked until a second before and does not reset the key. A
-- second has a tick, no key has two buckets, the maximum is not 0 and the lockout has a length.
pub enforce-too_many :
    (hz now later n : ℕ) (l : RateLimiter) (key : Str) (cs : List (ℕ × Call))
    → 1 ≤ hz
    → NodupKeys l.buckets
    → 1 ≤ l.limits.max_attempts
    → 1 ≤ l.limits.lockout
    → (enforce hz l key now).1 ≡ err (too_many n)
    → AllBefore (now + (n * hz - hz)) key cs
    → let answer = (enforce hz (after (enforce hz l key now).0 cs) key later).1 in
      ((later < now + n * hz) ⊎ (answer ≡ ok tt))
      × ((now + (n * hz - hz) < later) ⊎ ((m : ℕ) × (answer ≡ err (too_many m))))
enforce-too_many hz now later n l key cs h u k o e a =
    let (wait, refused, is_ceil, same) = enforce_err hz now n l key e in
    let (above, below) = ceil_bounds hz wait h in
    let positive = check-waits l now wait key o refused in
    let seconds : n * hz ≡ ceil hz wait * hz = ap (λ k. k * hz) is_ceil in
    let m = (check l key now).0 in
    let before : AllBefore (now + wait) key cs =
      AllBefore-later (now + (n * hz - hz)) (now + wait) key cs (omega (arith, below, seconds)) a in
    let here = ap (λ x. after x cs) same in
    (
      elim (Bool-cases (ltb later (now + n * hz))) [
        | inl soon ↦ inl (ground arith)
        | inr late ↦ inr (
            rw here (
              enforce_ok hz later (after m cs) key (
                refusal_ends l now wait later key cs u k o refused before
                  (omega (arith, above, seconds, ltb-false later (now + n * hz) late)))))
      ],
      elim (Bool-cases (ltb (now + (n * hz - hz)) later)) [
        | inl late ↦ inl (ground arith)
        | inr early ↦ inr (
            rw here (
              enforce_refused hz later (now + wait - later) (after m cs) key (
                refusal_holds l now wait later key cs refused before (
                  omega (
                    arith,
                    below,
                    seconds,
                    ltb-false (now + (n * hz - hz)) later early,
                    positive,
                  )))))
      ],
    )
