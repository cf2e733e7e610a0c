-- ===== src/Users/RateLimit/Budget.antt =====
-- rate_limit.py: how many attempts of a key are let through. The window is fixed, so two windows
-- that meet can both be used up.
use vidcast.Base.{
  ℕ, ◌+◌, ◌-◌, ◌*◌, ◌<◌, ◌≤◌, ◌≡◌, ap, ◌∙◌, true, ◌⊎◌, inl, inr, Bool-cases, none, some, List, [],
  ◌∷◌, arith, Bytes, Result, ok, err, if◌then◌else◌, ◌==◌, ltb, leb, bytes_eq, nat_eq,
}
use vidcast.Users.RateLimit.Ideal.{Ideal, set, ideal_replies, InOrder, after, last, after-limits}
use vidcast.Users.RateLimit.Simulation.{new_limiter-Simulates, after-Simulates, replies-ideal_from}
use vidcast.Users.RateLimit.Lockout.{Keeps}
use vidcast.Users.RateLimit.{
  Bucket, Limits, new_limiter, bucket_at, counted, attempt, Call, checks, resets, resets_all, Reply,
  replies,
}

-- What the reply says of the attempt: 1 for one that is let through.
abbrev pub gain : Result ℕ (Unit {0}) → ℕ
gain (ok _) = 1
gain (err _) = 0

-- The attempts of the key that are let through.
unfoldable pub admitted : Bytes → List (ℕ × Call) → List Reply → ℕ
admitted key ((_, checks k) ∷ cs) (some r ∷ rs) =
    let rest = admitted key cs rs in if k == key then gain r + rest else rest
admitted key (_ ∷ cs) (_ ∷ rs) = admitted key cs rs
admitted key _ _ = 0

-- Calls in the interval that do not reset the key.
abbrev pub AllInside : ℕ → ℕ → Bytes → List (ℕ × Call) → Type 0
AllInside s e key [] = Unit
AllInside s e key ((now, c) ∷ cs) = (s ≤ now) × (now < e) × Keeps key c × AllInside s e key cs

-- Locked out at least until this time, or not at all.
abbrev Fresh : ℕ → ℕ → Bucket → Type 0
Fresh s e b = (s ≤ b.window_start) × ((b.locked_until ≡ 0) ⊎ (e ≤ b.locked_until))

-- Without a new window, the attempts that are left go down with each one let through.
counted_lem :
    (limits : Limits) (now : ℕ) (b : Bucket)
    → let r = counted limits now (record b { count = b.count + 1 }) in
      gain r.1 + (limits.max_attempts - r.0.count) ≤ limits.max_attempts - b.count
counted_lem limits now b = ground arith

-- A window that began in the interval lasts until its end, as a lockout does.
attempt-Fresh :
    (limits : Limits) (s now : ℕ) (b : Bucket)
    → limits.window ≤ limits.lockout
    → s ≤ now
    → now < s + limits.window
    → Fresh s (s + limits.window) b
    → Fresh s (s + limits.window) (attempt limits now b).0
      × (gain (attempt limits now b).1 + (limits.max_attempts - (attempt limits now b).0.count)
          ≤ limits.max_attempts - b.count)
unfolding attempt
attempt-Fresh limits s now b w h i (k, inl free) = ground (arith, free)
attempt-Fresh limits s now b w h i (k, inr locked) =
    let held : ltb now b.locked_until ≡ true = ground arith in
    rw held ((k, inr locked), omega arith)

attempt-gain :
    (limits : Limits) (s now : ℕ) (b : Bucket)
    → limits.window ≤ limits.lockout
    → s ≤ now
    → now < s + limits.window
    → let r = attempt limits now b in
      (Fresh s (s + limits.window) r.0
        × (gain r.1 + (limits.max_attempts - r.0.count) ≤ limits.max_attempts))
      ⊎ (gain r.1 + (limits.max_attempts - r.0.count) ≤ limits.max_attempts - b.count)
unfolding attempt
attempt-gain limits s now b w h i = elim (Bool-cases (ltb now b.locked_until)) [
  | inl held ↦ inr (rw held (omega arith))
  | inr free ↦ elim (Bool-cases (b.locked_until == 0)) [
    | inr was ↦ inl (ground (arith, free, was))
    | inl never ↦ elim (Bool-cases (leb (b.window_start + limits.window) now)) [
      | inl over ↦ inl (ground (arith, free, never, over))
      | inr inside ↦ inr (ground (arith, free, never, inside))
    ]
  ]
]

-- The key has the bucket, which a check replaces.
admitted-Fresh :
    (limits : Limits) (f : Ideal) (s : ℕ) (key : Bytes) (b : Bucket) (cs : List (ℕ × Call))
    → limits.window ≤ limits.lockout
    → AllInside s (s + limits.window) key cs
    → f key ≡ some b
    → Fresh s (s + limits.window) b
    → admitted key cs (ideal_replies limits f cs) ≤ limits.max_attempts - b.count
unfolding admitted ideal_replies
admitted-Fresh limits f s key b [] w o e h = omega arith
admitted-Fresh limits f s key b ((now, resets_all) ∷ cs) w (i, j, n, o) e h = absurd n
admitted-Fresh limits f s key b ((now, resets k) ∷ cs) w (i, j, n, o) e h =
    admitted-Fresh limits (set f k none) s key b cs w o (ground (arith, e, n)) h
admitted-Fresh limits f s key b ((now, checks k) ∷ cs) w (i, j, n, o) e h =
    let g = set f k (some (attempt limits now (bucket_at now (f k))).0) in
    elim (Bool-cases (k == key)) [
      | inl hit ↦
          let here : f k ≡ some b = ground (arith, hit, e) in
          let (fresh, less) = attempt-Fresh limits s now b w i j h in
          let next : g key ≡ some (attempt limits now b).0 = ground (arith, hit, here) in
          let rest = admitted-Fresh limits g s key (attempt limits now b).0 cs w o next fresh in
          ground (arith, hit, here, less, rest)
      | inr miss ↦
          let next : g key ≡ some b = ground (arith, miss, e) in
          let rest = admitted-Fresh limits g s key b cs w o next h in ground (arith, miss, rest)
    ]

admitted-bucket :
    (limits : Limits) (f : Ideal) (s : ℕ) (key : Bytes) (b : Bucket) (cs : List (ℕ × Call))
    → limits.window ≤ limits.lockout
    → AllInside s (s + limits.window) key cs
    → f key ≡ some b
    → admitted key cs (ideal_replies limits f cs)
      ≤ limits.max_attempts - b.count + limits.max_attempts
unfolding admitted ideal_replies
admitted-bucket limits f s key b [] w o e = omega arith
admitted-bucket limits f s key b ((now, resets_all) ∷ cs) w (i, j, n, o) e = absurd n
admitted-bucket limits f s key b ((now, resets k) ∷ cs) w (i, j, n, o) e =
    admitted-bucket limits (set f k none) s key b cs w o (ground (arith, e, n))
admitted-bucket limits f s key b ((now, checks k) ∷ cs) w (i, j, n, o) e =
    let g = set f k (some (attempt limits now (bucket_at now (f k))).0) in
    elim (Bool-cases (k == key)) [
      | inl hit ↦
          let here : f k ≡ some b = ground (arith, hit, e) in
          let c = (attempt limits now b).0 in
          let next : g key ≡ some c = ground (arith, hit, here) in
          elim (attempt-gain limits s now b w i j) [
            | inl (fresh, less) ↦
                let rest = admitted-Fresh limits g s key c cs w o next fresh in
                ground (arith, hit, here, less, rest)
            | inr less ↦
                let rest = admitted-bucket limits g s key c cs w o next in
                ground (arith, hit, here, less, rest)
          ]
      | inr miss ↦
          let next : g key ≡ some b = ground (arith, miss, e) in
          let rest = admitted-bucket limits g s key b cs w o next in ground (arith, miss, rest)
    ]

-- A key with no bucket gets a new one at its first check.
admitted-ideal :
    (limits : Limits) (f : Ideal) (s : ℕ) (key : Bytes) (cs : List (ℕ × Call))
    → limits.window ≤ limits.lockout
    → AllInside s (s + limits.window) key cs
    → admitted key cs (ideal_replies limits f cs) ≤ 2 * limits.max_attempts
unfolding admitted ideal_replies
admitted-ideal limits f s key [] w o = omega arith
admitted-ideal limits f s key ((now, resets_all) ∷ cs) w (i, j, n, o) = absurd n
admitted-ideal limits f s key ((now, resets k) ∷ cs) w (i, j, n, o) =
    admitted-ideal limits (set f k none) s key cs w o
admitted-ideal limits f s key ((now, checks k) ∷ cs) w (i, j, n, o) =
    let b = bucket_at now (f k) in
    let c = (attempt limits now b).0 in
    let g = set f k (some c) in
    elim (Bool-cases (k == key)) [
      | inl hit ↦
          let next : g key ≡ some c = ground (arith, hit) in
          elim (attempt-gain limits s now b w i j) [
            | inl (fresh, less) ↦
                let rest = admitted-Fresh limits g s key c cs w o next fresh in
                ground (arith, hit, less, rest)
            | inr less ↦
                let rest = admitted-bucket limits g s key c cs w o next in
                ground (arith, hit, less, rest)
          ]
      | inr miss ↦ let rest = admitted-ideal limits g s key cs w o in ground (arith, miss, rest)
    ]

-- The bound on guessing: where a lockout is at least as long as the window, at most twice the
-- maximum of attempts of a key are let through within any interval as long as the window, whatever
-- was called before since the limiter was made and whatever other keys are checked or reset, if the
-- times do not go back and the key is not reset in the interval.
pub admitted-twice :
    (limits : Limits) (t s : ℕ) (key : Bytes) (before cs : List (ℕ × Call))
    → limits.window ≤ limits.lockout
    → InOrder t before
    → InOrder (last t before) cs
    → AllInside s (s + limits.window) key cs
    → admitted key cs (replies (after (new_limiter limits) before) cs) ≤ 2 * limits.max_attempts
unfolding new_limiter
admitted-twice limits t s key before cs w o p i =
    let l = after (new_limiter limits) before in
    let (f, h) =
      after-Simulates t (new_limiter limits) (λ k. none) before o
        (new_limiter-Simulates limits t) in
    let same =
      replies-ideal_from (last t before) l f cs p h
      ∙ ap (λ m. ideal_replies m f cs) (after-limits (new_limiter limits) before) in
    rw same (admitted-ideal limits f s key cs w i)
