-- ===== src/Users/Migrations/Cleanup.antt =====
-- migrations.py: what is left when `upgrade_to_head` returns or raises.
use vidcast.Base.{
  ℕ, ◌≡◌, refl, ◌∙◌, Bool, true, false, ◌||◌, ◌⊎◌, inl, inr, Bool-cases, Result, ok, err, arith,
}
use vidcast.Users.Migrations.{
  Wait, acquired, timed_out, out_of_fuel, acquire_advisory_lock, Connection, connect, Faults,
  UpgradeError, lock_timeout, migrate, release, upgrade_to_head,
}

abbrev pub succeeded : Result UpgradeError (Unit {0}) → Bool
succeeded (ok _) = true
succeeded (err _) = false

-- What the migration itself raises.
abbrev pub raised : Faults → Result UpgradeError (Unit {0})
raised faults = (migrate faults connect).1

migrate-committed :
    (faults : Faults) (c : Connection)
    → c.committed ≡ false
    → ((migrate faults c).0.committed ≡ succeeded (migrate faults c).1)
      × ((migrate faults c).1 ≡ raised faults)
      × ((migrate faults c).0.locked ≡ c.locked)
migrate-committed faults c h = ground (arith, h)

release_lem :
    (faults : Faults) (c : Connection)
    → ((release faults c).committed ≡ c.committed)
      × (((release faults c).locked ≡ false)
          ⊎ (((faults.rollback || faults.unlock) ≡ true) × (faults.invalidate ≡ true)))
unfolding release
release_lem faults c = elim (Bool-cases (faults.rollback || faults.unlock)) [
  | inr clean ↦ (ground (arith, clean), inl (ground (arith, clean)))
  | inl failed ↦ elim (Bool-cases faults.invalidate) [
    | inl stuck ↦ (ground (arith, failed, stuck), inr (failed, stuck))
    | inr gone ↦ (ground (arith, failed, gone), inl (ground (arith, failed, gone)))
  ]
]

-- `upgrade_to_head` on Postgres, once the wait is over.
abbrev ended : Faults → Wait → Connection × Result UpgradeError (Unit {0})
ended faults w = elim w [
  | acquired _ ↦
      let (c, r) = migrate faults (record connect { locked = true }) in (release faults c, r)
  | _ ↦ (connect, err lock_timeout)
]

abbrev Clean : Faults → Connection → Result UpgradeError (Unit {0}) → Type 0
Clean faults c r =
    ((c.locked ≡ false)
      ⊎ (((faults.rollback || faults.unlock) ≡ true) × (faults.invalidate ≡ true)))
    × (c.committed ≡ succeeded r)
    × ((r ≡ raised faults) ⊎ (r ≡ err lock_timeout))

locked_wait : (faults : Faults) (w : Wait) → Clean faults (ended faults w).0 (ended faults w).1
locked_wait faults (acquired i) =
    let c : Connection = record connect { locked = true } in
    let (done, same, _) = migrate-committed faults c refl in
    let (kept, leak) = release_lem faults (migrate faults c).0 in (leak, kept ∙ done, inl same)
locked_wait faults (timed_out i) = (inl refl, refl, inr refl)
locked_wait faults out_of_fuel = (inl refl, refl, inr refl)

-- The lock does not stay with a connection of the pool, unless the cleanup fails and the connection
-- cannot be invalidated either. Whatever the cleanup does, the caller gets the error of the
-- migration, or that of the wait, and gets none exactly when the migration is committed.
pub upgrade_to_head-locked :
    (is_postgres : Bool) (polls : ℕ → Bool) (clock : ℕ → ℕ) (start : ℕ) (faults : Faults)
    → let (c, r) = upgrade_to_head is_postgres polls clock start faults in
      ((c.locked ≡ false)
        ⊎ (((faults.rollback || faults.unlock) ≡ true) × (faults.invalidate ≡ true)))
      × (c.committed ≡ succeeded r)
      × ((r ≡ raised faults) ⊎ (r ≡ err lock_timeout))
unfolding upgrade_to_head
upgrade_to_head-locked false polls clock start faults =
    let (done, same, open_lock) = migrate-committed faults connect refl in
    (inl open_lock, done, inl same)
upgrade_to_head-locked true polls clock start faults =
    locked_wait faults (acquire_advisory_lock polls clock start)
