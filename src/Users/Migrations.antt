-- ===== src/Users/Migrations.antt =====
-- services/users/app/migrations.py: the lock around the migrations. What the database and Alembic
-- do is given: whether each poll gets the lock, what the clock says after it, and which statements
-- raise. Times are in milliseconds.
pub mod Waiting
pub mod Cleanup
use vidcast.Base.{
  ℕ, zero, suc, ◌+◌, ◌*◌, ◌≤◌, ◌≡◌, Bool, true, false, not, ◌&&◌, ◌||◌, Result, ok, err, ◌>>=◌,
  if◌then◌else◌, leb,
}

abbrev pub advisory_lock_timeout : ℕ
advisory_lock_timeout = 30000

abbrev pub advisory_lock_retry : ℕ
advisory_lock_retry = 200

-- How the wait ends, and after how many polls that failed.
pub data Wait : Type 0 where
  acquired timed_out : ℕ → Wait
  out_of_fuel : Wait

-- The loop of `_acquire_advisory_lock`: `polls i` says whether the poll after `i` failures gets the
-- lock, and `clock i` is the time that is read after it.
unfoldable pub poll_lock : (ℕ → Bool) → (ℕ → ℕ) → ℕ → ℕ → ℕ → Wait
poll_lock polls clock deadline zero i = out_of_fuel
poll_lock polls clock deadline (suc n) i =
    let again = poll_lock polls clock deadline n (suc i) in
    if polls i then acquired i else if leb deadline (clock i) then timed_out i else again

-- One poll at the start, and one after each sleep that fits in the timeout.
abbrev pub polls_at_most : ℕ
polls_at_most = 151

-- `_acquire_advisory_lock`, from the time at which it starts.
unfoldable pub acquire_advisory_lock : (ℕ → Bool) → (ℕ → ℕ) → ℕ → Wait
unfolding poll_lock
acquire_advisory_lock polls clock start =
    poll_lock polls clock (start + advisory_lock_timeout) polls_at_most 0

-- The connection: whether its session holds the lock, whether the migration is committed, and
-- whether the pool will discard it.
pub record Connection : Type 0 where
  pub locked : Bool
  pub committed : Bool
  pub invalidated : Bool

abbrev pub connect : Connection
connect = record { locked = false; committed = false; invalidated = false }

-- Which statements raise.
pub record Faults : Type 0 where
  pub upgrade : Bool
  pub commit : Bool
  pub rollback : Bool
  pub unlock : Bool
  pub invalidate : Bool

pub data UpgradeError : Type 0 where
  lock_timeout upgrade_failed commit_failed : UpgradeError

-- The `try` block.
abbrev pub migrate : Faults → Connection → Connection × Result UpgradeError (Unit {0})
migrate faults c =
    if faults.upgrade
    then (c, err upgrade_failed)
    else if faults.commit
    then (c, err commit_failed)
    else (record c { committed = true }, ok tt)

-- The `finally` block on Postgres. A connection that is discarded is closed, which ends its session
-- and its lock.
unfoldable pub release : Faults → Connection → Connection
release faults c =
    if faults.rollback || faults.unlock
    then if faults.invalidate then c else record c { invalidated = true; locked = false }
    else record c { locked = false }

-- `upgrade_to_head`: the connection as it goes back to the pool, and what is raised.
unfoldable pub upgrade_to_head :
    Bool → (ℕ → Bool) → (ℕ → ℕ) → ℕ → Faults → Connection × Result UpgradeError (Unit {0})
unfolding acquire_advisory_lock release
upgrade_to_head is_postgres polls clock start faults =
    if not is_postgres
    then migrate faults connect
    else elim (acquire_advisory_lock polls clock start) [
      | acquired _ ↦
          let (c, raised) = migrate faults (record connect { locked = true }) in
          (release faults c, raised)
      | _ ↦ (connect, err lock_timeout)
    ]
