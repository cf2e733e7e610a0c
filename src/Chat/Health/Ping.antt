-- ===== src/Chat/Health/Ping.antt =====
-- health.go: the answer to a health check.
use mathlib.Core.List.{Mem, mem-cons, mem-cons_self, mem-cons_of_mem, not-mem-nil, Perm}
use mathlib.Core.List.Perm
use mathlib.Core.Logic.Or
use mathlib.Core.HLevel.{⊥_prop}
use vidcast.Base.{
  ◌≡◌, refl, ◌∙◌, ap, ◌≢◌, ◌⊎◌, inl, inr, List, [], ◌∷◌, Option, none, some, Option-cases, arith,
  Bytes,
}
use vidcast.Chat.Health.{collect_errors, ping_all_shards, health_handler}

module _ {C : Type 0} (ping : C → Option Bytes) where
  collect_errors-some : (e : Bytes) (shards : List C) → collect_errors ping (some e) shards ≡ some e
  unfolding collect_errors
  collect_errors-some e [] = refl
  collect_errors-some e (s ∷ shards) = collect_errors-some e shards

  -- The first error, or none at all.
  ping_cases :
      (shards : List C)
      → ((collect_errors ping none shards ≡ none) × ((c : C) → Mem c shards → ping c ≢ none → ⊥))
        ⊎ ((c : C) × (e : Bytes) × (collect_errors ping none shards ≡ some e)
            × Mem c shards
            × (ping c ≡ some e))
  unfolding collect_errors
  ping_cases [] = inl (refl, λ c m n. not-mem-nil m)
  ping_cases (s ∷ shards) = elim (Option-cases (ping s)) [
    | inr (e, bad) ↦ inr (s, e, rw bad (collect_errors-some e shards), mem-cons_self, bad)
    | inl good ↦ elim (ping_cases shards) [
      | inr (c, e, r, m, bad) ↦ inr (c, e, rw good r, mem-cons_of_mem s m, bad)
      | inl (r, all) ↦ inl (
        rw good r,
        λ c m n. Or.elim ⊥_prop (mem-cons.0 m) (λ e. n (ap ping e ∙ good)) (λ t. all c t n),
      )
    ]
  ]

  module _ (shards ended : List C) (perm : Perm ended shards) where
    -- In whatever order the pings end: the answer is 200 exactly when every shard responds, and
    -- otherwise it is 503, with the error of one of the shards that do not.
    pub health_handler_lem :
        (((c : C) → Mem c shards → ping c ≡ none) → (health_handler ping ended).status ≡ 200)
        × ((c : C)
            → Mem c shards
            → ping c ≢ none
            → ((health_handler ping ended).status ≡ 503)
              × ((d : C) × (e : Bytes) × Mem d shards
                  × (ping d ≡ some e)
                  × (ping_all_shards ping ended ≡ some e)))
    unfolding health_handler ping_all_shards
    health_handler_lem = elim (ping_cases ended) [
      | inl (r, all) ↦ (λ h. ground (arith, r), λ c m n. absurd (all c ((Perm.mem_iff perm).1 m) n))
      | inr (c, e, r, m, bad) ↦ (
        λ h. absurd (ground (arith, h c ((Perm.mem_iff perm).0 m), bad)),
        λ d k n. (ground (arith, r), (c, e, (Perm.mem_iff perm).0 m, bad, r)),
      )
    ]
