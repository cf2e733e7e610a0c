-- ===== src/Users/Settings/Production.antt =====
-- config.py: the settings that the service starts with outside of development.
use vidcast.Base.{
  ◌⊎◌, ◌<◌, Result-cases, Bool-cases, ltb, err, ap, ◌∙◌, ◌==◌, false, ◌≤◌, ◌≡◌, ◌≢◌, refl, true,
  false, Bool-cases, Result-cases, ◌⊎◌, inl, inr, [], ◌∷◌, Option, none, some, arith, ok, length,
  nat_eq, bytes_eq,
}
use vidcast.Users.Text.{Str}
use vidcast.Users.Settings.{
  Invalid, Settings, insecure_default_jwt_secret, development, is_set, is_truthy, any_set, all_set,
  reject_insecure_secret_outside_dev, require_discrete_db_fields_together,
  require_db_host_outside_dev, load, DbUrl, resolved_database_url,
}

-- What the service runs with outside of development: a secret of its own, of 32 characters or more,
-- and the Postgres server that the four settings name, never the local database.
abbrev pub IsProduction : (DbUrl → Str) → Settings → Type 0
IsProduction render s =
    (s.jwt_secret ≢ insecure_default_jwt_secret)
    × (32 ≤ length s.jwt_secret)
    × ((host user password name : Str) × (host ≢ [])
        × (resolved_database_url render s
            ≡ render (record {
              username = some user;
              password = some password;
              host = host;
              port = s.db_port;
              database = some name;
            })))

secret_lem :
    (s a : Settings)
    → reject_insecure_secret_outside_dev s ≡ ok a
    → s.environment ≢ development
    → (a ≡ s) × (s.jwt_secret ≢ insecure_default_jwt_secret) × (32 ≤ length s.jwt_secret)
unfolding reject_insecure_secret_outside_dev
secret_lem s a e n = ground (arith, e, n)

fields_lem :
    (s a : Settings)
    → require_discrete_db_fields_together s ≡ ok a
    → (a ≡ s) × ((any_set s ≡ false) ⊎ (all_set s ≡ true))
unfolding require_discrete_db_fields_together
fields_lem s a e = elim (Bool-cases (any_set s)) [
  | inr never ↦ (ground (arith, never, e), inl never)
  | inl some_set ↦ elim (Bool-cases (all_set s)) [
    | inl every ↦ (ground (arith, some_set, every, e), inr every)
    | inr apart ↦ absurd (ground (arith, some_set, apart, e))
  ]
]

host_lem :
    (s a : Settings)
    → require_db_host_outside_dev s ≡ ok a
    → s.environment ≢ development
    → (a ≡ s) × (is_truthy s.db_host ≡ true)
unfolding require_db_host_outside_dev
host_lem s a e n = ground (arith, e, n)

set_some : (o : Option Str) → is_set o ≡ true → (x : Str) × (o ≡ some x)
set_some none h = absurd (cc)
set_some (some x) h = (x, refl)

truthy_some : (o : Option Str) → is_truthy o ≡ true → (x : Str) × (o ≡ some x) × (x ≢ [])
truthy_some none h = absurd (cc)
truthy_some (some []) h = absurd (cc)
truthy_some (some (c ∷ x)) h = (c ∷ x, refl, λ z. cc)

url_lem :
    (render : DbUrl → Str) (s : Settings) (host user password name : Str)
    → s.db_host ≡ some host
    → s.db_user ≡ some user
    → s.db_password ≡ some password
    → s.db_name ≡ some name
    → resolved_database_url render s
      ≡ render (record {
        username = some user;
        password = some password;
        host = host;
        port = s.db_port;
        database = some name;
      })
unfolding resolved_database_url
url_lem render s host user password name eh eu ep en = rw (eh, eu, ep, en) refl

-- What loads is fit.
pub load-IsProduction :
    (render : DbUrl → Str) (s r : Settings)
    → load s ≡ ok r
    → s.environment ≢ development
    → (r ≡ s) × IsProduction render s
unfolding load
load-IsProduction render s r e n = elim (Result-cases (reject_insecure_secret_outside_dev s)) [
  | inl (x, bad) ↦ absurd (ground (arith, bad, e))
  | inr (a, ea) ↦
      let (sa, safe, long) = secret_lem s a ea n in
      elim (Result-cases (require_discrete_db_fields_together s)) [
        | inl (x, bad) ↦ absurd (ground (arith, ea, sa, bad, e))
        | inr (b, eb) ↦
            let (sb, together) = fields_lem s b eb in
            let last : require_db_host_outside_dev s ≡ ok r = ground (arith, ea, sa, eb, sb, e) in
            let (sr, truthy) = host_lem s r last n in
            let (host, eh, filled) = truthy_some s.db_host truthy in
            let every : all_set s ≡ true = ground (arith, together, eh) in
            let (user, eu) = set_some s.db_user (ground (arith, every)) in
            let (password, ep) = set_some s.db_password (ground (arith, every)) in
            let (name, en) = set_some s.db_name (ground (arith, every)) in
            (
              sr,
              (
                safe,
                long,
                (
                  host,
                  user,
                  password,
                  name,
                  filled,
                  url_lem render s host user password name eh eu ep en,
                ),
              ),
            )
      ]
]

-- What makes settings unfit for production.
abbrev pub IsUnfit : Settings → Type 0
IsUnfit s =
    (s.jwt_secret ≡ insecure_default_jwt_secret)
    ⊎ (length s.jwt_secret < 32)
    ⊎ (is_truthy s.db_host ≡ false)
    ⊎ (all_set s ≡ false)

reject_insecure_secret_outside_dev-IsUnfit :
    (s : Settings) (e : Invalid) → reject_insecure_secret_outside_dev s ≡ err e → IsUnfit s
unfolding reject_insecure_secret_outside_dev
reject_insecure_secret_outside_dev-IsUnfit s e h =
    elim (Bool-cases (s.jwt_secret == insecure_default_jwt_secret)) [
      | inl default ↦ inl (ground arith)
      | inr other ↦ elim (Bool-cases (ltb (length s.jwt_secret) 32)) [
        | inl short ↦ inr (inl (ground arith))
        | inr long ↦ elim (Bool-cases (s.jwt_secret == [])) [
          | inl empty ↦
              let is_nil : s.jwt_secret ≡ [] = ground arith in
              inr (inl (ground (arith, ap length is_nil)))
          | inr filled ↦ absurd (ground (arith, other, long, filled, h))
        ]
      ]
    ]

require_discrete_db_fields_together-IsUnfit :
    (s : Settings) (e : Invalid) → require_discrete_db_fields_together s ≡ err e → IsUnfit s
unfolding require_discrete_db_fields_together
require_discrete_db_fields_together-IsUnfit s e h = inr (inr (inr (ground (arith, h))))

require_db_host_outside_dev-IsUnfit :
    (s : Settings) (e : Invalid) → require_db_host_outside_dev s ≡ err e → IsUnfit s
unfolding require_db_host_outside_dev
require_db_host_outside_dev-IsUnfit s e h = inr (inr (inl (ground (arith, h))))

-- Outside of development the settings either load as they are and are fit for production, with a
-- secret of their own of 32 characters or more and the Postgres server that all four fields name, or
-- they are refused and unfit: the secret is the default or too short, there is no host, or a field
-- is missing.
pub load-cases :
    (render : DbUrl → Str) (s : Settings)
    → s.environment ≢ development
    → ((load s ≡ ok s) × IsProduction render s) ⊎ ((e : Invalid) × (load s ≡ err e) × IsUnfit s)
unfolding load
load-cases render s n = elim (Result-cases (load s)) [
  | inr (r, done) ↦
      let (same, fit) = load-IsProduction render s r done n in inl (done ∙ ap ok same, fit)
  | inl (e, failed) ↦ inr (
    e,
    failed,
    elim (Result-cases (reject_insecure_secret_outside_dev s)) [
      | inl (x, bad) ↦ reject_insecure_secret_outside_dev-IsUnfit s x bad
      | inr (a, ea) ↦
          let (sa, _, _) = secret_lem s a ea n in
          elim (Result-cases (require_discrete_db_fields_together s)) [
            | inl (x, bad) ↦ require_discrete_db_fields_together-IsUnfit s x bad
            | inr (b, eb) ↦
                let (sb, _) = fields_lem s b eb in
                require_db_host_outside_dev-IsUnfit s e (ground (arith, ea, sa, eb, sb, failed))
          ]
    ],
  )
]
