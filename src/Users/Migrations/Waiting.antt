-- ===== src/Users/Migrations/Waiting.antt =====
-- migrations.py: the wait for the lock ends.
use vidcast.Base.{
  ℕ, zero, suc, ◌+◌, ◌*◌, ◌<◌, ◌≤◌, ◌≡◌, Bool, true, false, Bool-cases, inl, inr, arith, leb, ltb,
}
use vidcast.Users.Migrations.{
  advisory_lock_timeout, advisory_lock_retry, Wait, acquired, timed_out, out_of_fuel, poll_lock,
  polls_at_most, acquire_advisory_lock,
}

-- The clock does not go back, and a sleep takes as long as it says or longer.
abbrev pub Sleeps : (ℕ → ℕ) → ℕ → Type 0
Sleeps clock start = (start ≤ clock 0) × ((i : ℕ) → clock i + advisory_lock_retry ≤ clock (suc i))

pub clock-Sleeps :
    (clock : ℕ → ℕ) (start i : ℕ) → Sleeps clock start → start + advisory_lock_retry * i ≤ clock i
clock-Sleeps clock start zero (s, h) = omega (arith, s)
clock-Sleeps clock start (suc i) (s, h) = omega (arith, h i, clock-Sleeps clock start i (s, h))

-- Polls that fail before the deadline.
abbrev pub FailBefore : (ℕ → Bool) → (ℕ → ℕ) → ℕ → ℕ → Type 0
FailBefore polls clock deadline i = (j : ℕ) → j < i → (polls j ≡ false) × (clock j < deadline)

-- How the wait ended.
abbrev pub Ends : (ℕ → Bool) → (ℕ → ℕ) → ℕ → Wait → Type 0
Ends polls clock deadline (acquired i) = (polls i ≡ true) × FailBefore polls clock deadline i
Ends polls clock deadline (timed_out i) =
    (polls i ≡ false) × (deadline ≤ clock i) × FailBefore polls clock deadline i
Ends polls clock deadline out_of_fuel = ⊥

FailBefore-suc :
    (polls : ℕ → Bool) (clock : ℕ → ℕ) (deadline i : ℕ)
    → FailBefore polls clock deadline i
    → polls i ≡ false
    → clock i < deadline
    → FailBefore polls clock deadline (suc i)
FailBefore-suc polls clock deadline i f p c j h = elim (Bool-cases (ltb j i)) [
  | inl before ↦ f j (ground arith)
  | inr last ↦ let same : j ≡ i = ground arith in rw same ((p, c))
]

poll_lock-Ends :
    (polls : ℕ → Bool) (clock : ℕ → ℕ) (start n i : ℕ)
    → Sleeps clock start
    → FailBefore polls clock (start + advisory_lock_timeout) i
    → polls_at_most ≤ n + i
    → Ends polls clock
        (start + advisory_lock_timeout)
        (poll_lock polls clock (start + advisory_lock_timeout) n i)
unfolding poll_lock
poll_lock-Ends polls clock start zero i s f h =
    absurd (omega (arith, (f 150 (omega arith)).1, clock-Sleeps clock start 150 s))
poll_lock-Ends polls clock start (suc n) i s f h = elim (Bool-cases (polls i)) [
  | inl hit ↦ rw hit ((hit, f))
  | inr miss ↦ elim (Bool-cases (leb (start + advisory_lock_timeout) (clock i))) [
    | inl over ↦ rw (miss, over) ((miss, ground arith, f))
    | inr inside ↦
        rw (miss, inside)
          (poll_lock-Ends polls clock start n (suc i) s
            (FailBefore-suc polls clock (start + advisory_lock_timeout) i f miss (ground arith))
            (omega arith))
  ]
]

-- The wait for the lock ends after at most 151 polls, if the clock does not go back and each sleep
-- takes its time: with the lock, at the first poll that gets it before the deadline has been read,
-- or else with the error, once a poll has failed and the deadline is over.
pub acquire_advisory_lock-Ends :
    (polls : ℕ → Bool) (clock : ℕ → ℕ) (start : ℕ)
    → Sleeps clock start
    → Ends polls clock (start + advisory_lock_timeout) (acquire_advisory_lock polls clock start)
unfolding acquire_advisory_lock
acquire_advisory_lock-Ends polls clock start s =
    poll_lock-Ends polls clock start polls_at_most 0 s (λ j h. absurd (omega arith)) (omega arith)
