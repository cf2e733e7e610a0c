-- ===== src/Users/RateLimit/Simulation.antt =====
-- rate_limit.py: the limiter against the one that forgets nothing.
use vidcast.Users.RateLimit.Eviction.{
  attempt-stale, lookup-remove_stale, remove_stale-Nodup, evict_stale-limits, step-limits,
}
use vidcast.Base.{
  ◌+◌, ◌%◌, ap₂, ℕ, ◌≤◌, ◌≡◌, refl, sym, ◌∙◌, ap, true, ◌⊎◌, inl, inr, Bool-cases, Option, none,
  some, List, [], ◌∷◌, arith, Bytes, Result, ◌==◌, bytes_eq, nat_eq,
}
use vidcast.Base.Dict.{
  Dict, lookup, NodupKeys, lookup-insert, lookup-delete, insert-NodupKeys, delete-NodupKeys,
}
use vidcast.Users.RateLimit.{
  Bucket, Limits, RateLimiter, new_limiter, is_stale, remove_stale, evict_stale, bucket_at, attempt,
  check, reset, reset_all, Call, checks, resets, resets_all, step, replies,
}
use vidcast.Users.RateLimit.Ideal.{Ideal, ideal_step, ideal_replies, InOrder, after, last}

-- The limiter has the ideal bucket, or has dropped one that is stale.
abbrev pub Agrees : Limits → ℕ → Option Bucket → Option Bucket → Type 0
Agrees limits now found ideal =
    (found ≡ ideal)
    ⊎ ((found ≡ none) × ((b : Bucket) × (ideal ≡ some b) × (is_stale limits now b ≡ true)))

pub record Simulates (t : ℕ) (l : RateLimiter) (f : Ideal) : Type 0 where
  pub nodup : NodupKeys l.buckets
  pub agrees : (k : Bytes) → Agrees l.limits t (lookup k l.buckets) (f k)

-- Time passes.
pub Agrees-later :
    (limits : Limits) (t now : ℕ) (found ideal : Option Bucket)
    → t ≤ now
    → Agrees limits t found ideal
    → Agrees limits now found ideal
Agrees-later limits t now found ideal h (inl e) = inl e
Agrees-later limits t now found ideal h (inr (gone, (b, e, s))) = inr (gone, (b, e, ground arith))

pub remove_stale-Agrees :
    (limits : Limits) (now : ℕ) (k : Bytes) (d : Dict Bytes Bucket) (ideal : Option Bucket)
    → NodupKeys d
    → Agrees limits now (lookup k d) ideal
    → Agrees limits now (lookup k (remove_stale limits now d)) ideal
remove_stale-Agrees limits now k d ideal n h = elim (lookup-remove_stale limits now k d n) [
  | inl same ↦ rw same h
  | inr (gone, (b, e, s)) ↦ elim h [
    | inl agreed ↦ inr (gone, (b, sym agreed ∙ e, s))
    | inr (_, stale) ↦ inr (gone, stale)
  ]
]

pub evict_stale-Simulates :
    (t now : ℕ) (l : RateLimiter) (f : Ideal)
    → t ≤ now
    → Simulates t l f
    → Simulates now (evict_stale l now) f
unfolding evict_stale
evict_stale-Simulates t now l f h s = record {
  nodup = ground (arith, s.nodup, remove_stale-Nodup l.limits now l.buckets s.nodup);
  agrees = λ k.
      let later = Agrees-later l.limits t now (lookup k l.buckets) (f k) h (s.agrees k) in
      let evicted = remove_stale-Agrees l.limits now k l.buckets (f k) s.nodup later in
      elim (Bool-cases ((l.eviction_counter + 1) % l.limits.eviction_sample_size == 0)) [
        | inl sampled ↦ rw sampled evicted
        | inr skipped ↦ rw skipped later
      ];
}

pub attempt-Agrees :
    (limits : Limits) (now : ℕ) (found ideal : Option Bucket)
    → Agrees limits now found ideal
    → attempt limits now (bucket_at now found) ≡ attempt limits now (bucket_at now ideal)
attempt-Agrees limits now found ideal (inl e) = ap (λ o. attempt limits now (bucket_at now o)) e
attempt-Agrees limits now found ideal (inr (gone, (b, e, s))) =
    ap (λ o. attempt limits now (bucket_at now o)) gone
    ∙ sym (attempt-stale limits now now b (omega arith) s)
    ∙ ap (λ o. attempt limits now (bucket_at now o)) (sym e)

pub new_limiter-Simulates : (limits : Limits) (t : ℕ) → Simulates t (new_limiter limits) (λ k. none)
unfolding new_limiter lookup
new_limiter-Simulates limits t = record { nodup = tt; agrees = λ k. inl refl }

pub check-Simulates :
    (t now : ℕ) (l : RateLimiter) (f : Ideal) (key : Bytes)
    → t ≤ now
    → Simulates t l f
    → Simulates now (check l key now).0 (ideal_step l.limits f now (checks key)).0
      × ((check l key now).1 ≡ (attempt l.limits now (bucket_at now (f key))).1)
unfolding check
check-Simulates t now l f key h s =
    let m = evict_stale l now in
    let w = evict_stale-Simulates t now l f h s in
    let b = attempt m.limits now (bucket_at now (lookup key m.buckets)) in
    let same : attempt m.limits now (bucket_at now (lookup key m.buckets))
        ≡ attempt l.limits now (bucket_at now (f key)) =
      attempt-Agrees m.limits now (lookup key m.buckets) (f key) (w.agrees key)
      ∙ ap (λ c. attempt c now (bucket_at now (f key))) (evict_stale-limits l now) in
    (
      record {
        nodup = insert-NodupKeys key b.0 m.buckets w.nodup;
        agrees = λ k. elim (Bool-cases (k == key)) [
          | inl hit ↦ inl (
              ground (
                arith,
                hit,
                lookup-insert k key b.0 m.buckets,
                ap (λ (r : Bucket × Result ℕ (Unit {0})). r.0) same,
              ))
          | inr miss ↦ rw (lookup-insert k key b.0 m.buckets, miss) (w.agrees k)
        ];
      },
      ap (λ (r : Bucket × Result ℕ (Unit {0})). r.1) same,
    )

pub step-Simulates :
    (t now : ℕ) (l : RateLimiter) (f : Ideal) (c : Call)
    → t ≤ now
    → Simulates t l f
    → Simulates now (step l now c).0 (ideal_step l.limits f now c).0
      × ((step l now c).1 ≡ (ideal_step l.limits f now c).1)
unfolding step reset reset_all
step-Simulates t now l f (checks key) h s =
    let (w, e) = check-Simulates t now l f key h s in (w, ap some e)
step-Simulates t now l f (resets key) h s = (
  record {
    nodup = delete-NodupKeys key l.buckets s.nodup;
    agrees = λ k. elim (Bool-cases (k == key)) [
      | inl hit ↦ inl (ground (arith, hit, lookup-delete k key l.buckets))
      | inr miss ↦
          rw (lookup-delete k key l.buckets, miss)
            (Agrees-later l.limits t now (lookup k l.buckets) (f k) h (s.agrees k))
    ];
  },
  refl,
)
step-Simulates t now l f resets_all h s =
    (record { nodup = tt; agrees = λ k. inl (unfold lookup in refl) }, refl)

pub after-Simulates :
    (t : ℕ) (l : RateLimiter) (f : Ideal) (cs : List (ℕ × Call))
    → InOrder t cs
    → Simulates t l f
    → (g : Ideal) × Simulates (last t cs) (after l cs) g
unfolding after
after-Simulates t l f [] o s = (f, s)
after-Simulates t l f ((now, c) ∷ cs) (h, o) s =
    after-Simulates now (step l now c).0 (ideal_step l.limits f now c).0 cs o
      (step-Simulates t now l f c h s).0

pub replies-ideal_from :
    (t : ℕ) (l : RateLimiter) (f : Ideal) (cs : List (ℕ × Call))
    → InOrder t cs
    → Simulates t l f
    → replies l cs ≡ ideal_replies l.limits f cs
unfolding replies ideal_replies
replies-ideal_from t l f [] o s = refl
replies-ideal_from t l f ((now, c) ∷ cs) (h, o) s =
    let (w, e) = step-Simulates t now l f c h s in
    let rest = replies-ideal_from now (step l now c).0 (ideal_step l.limits f now c).0 cs o w in
    ap₂ (λ r rs. r ∷ rs) e
      (rest ∙ ap (λ m. ideal_replies m (ideal_step l.limits f now c).0 cs) (step-limits l now c))

-- Eviction cannot be observed: from a new limiter on, whatever the limits and the sample size,
-- and whatever calls come at times that do not go back, every check is answered as by a limiter that
-- keeps a bucket for every key.
pub replies-ideal_replies :
    (limits : Limits) (t : ℕ) (cs : List (ℕ × Call))
    → InOrder t cs
    → replies (new_limiter limits) cs ≡ ideal_replies limits (λ k. none) cs
unfolding new_limiter
replies-ideal_replies limits t cs o =
    replies-ideal_from t (new_limiter limits) (λ k. none) cs o (new_limiter-Simulates limits t)
