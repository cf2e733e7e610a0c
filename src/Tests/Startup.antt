-- ===== src/Tests/Startup.antt =====
-- How the users service starts.
use vidcast.Base.{
  ok, ℕ, ◌+◌, ◌*◌, ◌≡◌, ◌≢◌, ap, Bool, true, false, ◌||◌, ◌==◌, ◌⊎◌, some, err, codes, arith,
  nat_eq, bytes_eq,
}
use vidcast.Users.Text.{Str}
use vidcast.Users.Settings.{Invalid, Settings, load, DbUrl}
use vidcast.Users.Settings.Production.{IsUnfit, load-cases, IsProduction}
use vidcast.Users.Migrations.{
  advisory_lock_timeout, acquire_advisory_lock, Faults, lock_timeout, upgrade_to_head,
}
use vidcast.Users.Migrations.Waiting.{Ends, acquire_advisory_lock-Ends}
use vidcast.Users.Migrations.Cleanup.{succeeded, raised, upgrade_to_head-locked}

abbrev production : Settings
production = record {
  database_url = codes "sqlite";
  db_host = some (codes "db");
  db_port = 5432;
  db_name = some (codes "app");
  db_user = some (codes "u");
  db_password = some (codes "p");
  environment = codes "production";
  jwt_secret = codes "0123456789abcdef0123456789abcdef";
}

abbrev render : DbUrl → Str
render u = u.host

not_development : codes "production" ≢ codes "development"
unfolding nat_eq bytes_eq
not_development e = let same : false ≡ true = ap (λ x. x == codes "development") e in cc

load-cases_example :
    ((load production ≡ ok production) × IsProduction render production)
    ⊎ ((e : Invalid) × (load production ≡ err e) × IsUnfit production)
load-cases_example = load-cases render production not_development

-- The fourth poll gets the lock.
abbrev polls : ℕ → Bool
polls i = i == 3

abbrev clock : ℕ → ℕ
clock i = 1000 + 200 * i

acquire_advisory_lock-Ends_example :
    Ends polls clock (1000 + advisory_lock_timeout) (acquire_advisory_lock polls clock 1000)
acquire_advisory_lock-Ends_example =
    acquire_advisory_lock-Ends polls clock 1000 (omega arith, λ i. omega arith)

-- The migration fails, and the unlock too.
abbrev faults : Faults
faults = record {
  upgrade = true;
  commit = false;
  rollback = false;
  unlock = true;
  invalidate = false;
}

upgrade_to_head-locked_example :
    (((upgrade_to_head true polls clock 1000 faults).0.locked ≡ false)
      ⊎ (((faults.rollback || faults.unlock) ≡ true) × (faults.invalidate ≡ true)))
    × ((upgrade_to_head true polls clock 1000 faults).0.committed
        ≡ succeeded (upgrade_to_head true polls clock 1000 faults).1)
    × (((upgrade_to_head true polls clock 1000 faults).1 ≡ raised faults)
        ⊎ ((upgrade_to_head true polls clock 1000 faults).1 ≡ err lock_timeout))
upgrade_to_head-locked_example = upgrade_to_head-locked true polls clock 1000 faults
