-- ===== src/Chat/Config/Addrs.antt =====
-- main.go: which addresses `getRedisAddrs` reads.
use mathlib.Core.List.{reverse, reverse-cons}
use vidcast.Base.{
  ℕ, ◌<◌, ◌≡◌, refl, sym, ◌∙◌, ap, subst, ◌≢◌, Bool, List, [], ◌∷◌, ◌++◌, some, arith, Bytes, codes,
  ok, nat_eq, bytes_eq, All, All-append, length,
}
use vidcast.Go.Fnv.{u32_mod}
use vidcast.Go.Space.{strip, trim_space}
use vidcast.Go.Strings.{split, split-append, split-Lacks, split-AllLacks, Lacks}
use vidcast.Chat.Broker.{shard_for}
use vidcast.Chat.Broker.Routing.{shard_index-lt, get_elem?-lt}
use vidcast.Chat.Config.{get_env, collect_addrs, get_redis_addrs, Settings, start}

strip-Lacks :
    (two : ℕ → ℕ → Bool) (three : ℕ → ℕ → ℕ → Bool) (k : ℕ) (s : Bytes)
    → Lacks k s
    → Lacks k (strip two three s)
unfolding strip
strip-Lacks two three k [] h = tt
strip-Lacks two three k (a ∷ []) h = ground (arith, h)
strip-Lacks two three k (a ∷ b ∷ []) h = ground (arith, h, strip-Lacks two three k (b ∷ []) h.1)
strip-Lacks two three k (a ∷ b ∷ c ∷ s) h = ground (
  arith,
  h,
  strip-Lacks two three k (b ∷ c ∷ s) h.1,
  strip-Lacks two three k (c ∷ s) h.1.1,
  strip-Lacks two three k s h.1.1.1,
)

reverse-Lacks : (k : ℕ) (s : Bytes) → Lacks k s → Lacks k (reverse s)
reverse-Lacks k [] h = tt
reverse-Lacks k (c ∷ s) h =
    subst (Lacks k) (sym (reverse-cons c s))
      (All-append (λ x. x ≢ k) (reverse s) (c ∷ []) (reverse-Lacks k s h.1) (h.0, tt))

trim_space-Lacks : (k : ℕ) (s : Bytes) → Lacks k s → Lacks k (trim_space s)
unfolding trim_space
trim_space-Lacks k s h =
    reverse-Lacks k _ (strip-Lacks _ _ k _ (reverse-Lacks k _ (strip-Lacks _ _ k s h)))

-- An address that is read: not empty, and without a comma.
abbrev pub IsAddr : Bytes → Type 0
IsAddr a = (a ≢ []) × Lacks b',' a

collect_addrs-IsAddr :
    (parts : List Bytes) → All (Lacks b',') parts → All IsAddr (collect_addrs parts)
unfolding collect_addrs
collect_addrs-IsAddr [] h = tt
collect_addrs-IsAddr (part ∷ parts) h =
    ground (arith, collect_addrs-IsAddr parts h.1, trim_space-Lacks b',' part h.0)

-- The addresses with a comma and nothing else between them.
abbrev pub join_comma : List Bytes → Bytes
join_comma [] = []
join_comma (a ∷ []) = a
join_comma (a ∷ b ∷ addrs) = a ++ b',' ∷ join_comma (b ∷ addrs)

-- An address that stands in a list as it is read.
abbrev pub IsTrimmed : Bytes → Type 0
IsTrimmed a = IsAddr a × (trim_space a ≡ a)

collect_addrs-IsTrimmed : (addrs : List Bytes) → All IsTrimmed addrs → collect_addrs addrs ≡ addrs
unfolding collect_addrs
collect_addrs-IsTrimmed [] h = refl
collect_addrs-IsTrimmed (a ∷ addrs) h =
    ground (arith, h.0.1, h.0.0.0, collect_addrs-IsTrimmed addrs h.1)

split-join_comma :
    (a : Bytes) (addrs : List Bytes)
    → All IsTrimmed (a ∷ addrs)
    → split b',' (join_comma (a ∷ addrs)) ≡ a ∷ addrs
split-join_comma a [] h = split-Lacks b',' a h.0.0.1
split-join_comma a (b ∷ addrs) h =
    split-append b',' a (join_comma (b ∷ addrs)) h.0.0.1 ∙ ap (◌∷◌ a) (split-join_comma b addrs h.1)

-- Whatever REDIS_ADDR holds, no address that is read is empty or has a comma in it.
get_redis_addrs-IsAddr : (getenv : Bytes → Bytes) → All IsAddr (get_redis_addrs getenv)
unfolding get_redis_addrs
get_redis_addrs-IsAddr getenv =
    let raw = get_env getenv (codes "REDIS_ADDR") (codes "localhost:6379") in
    collect_addrs-IsAddr (split b',' raw) (split-AllLacks b',' raw)

join_comma-ne : (a : Bytes) (addrs : List Bytes) → a ≢ [] → join_comma (a ∷ addrs) ≢ []
join_comma-ne a [] n = n
join_comma-ne [] (b ∷ addrs) n = absurd (n refl)
join_comma-ne (c ∷ a) (b ∷ addrs) n = λ e. cc

get_env-set :
    (getenv : Bytes → Bytes) (key fallback v : Bytes)
    → getenv key ≡ v
    → v ≢ []
    → get_env getenv key fallback ≡ v
unfolding get_env
get_env-set getenv key fallback v e n = ground (arith, e, n)

-- A list of addresses, each without a comma and without white space at its ends, is read back from
-- REDIS_ADDR when it is written with commas between them.
pub get_redis_addrs-join_comma :
    (getenv : Bytes → Bytes) (a : Bytes) (addrs : List Bytes)
    → All IsTrimmed (a ∷ addrs)
    → getenv (codes "REDIS_ADDR") ≡ join_comma (a ∷ addrs)
    → get_redis_addrs getenv ≡ a ∷ addrs
unfolding get_redis_addrs
get_redis_addrs-join_comma getenv a addrs h e =
    let raw =
      get_env-set getenv (codes "REDIS_ADDR") (codes "localhost:6379") (join_comma (a ∷ addrs)) e
        (join_comma-ne a addrs h.0.0.0) in
    ap (λ r. collect_addrs (split b',' r)) raw
    ∙ ap collect_addrs (split-join_comma a addrs h)
    ∙ collect_addrs-IsTrimmed (a ∷ addrs) h

start-shards :
    (getenv : Bytes → Bytes) (s : Settings)
    → start getenv ≡ ok s
    → (s.shards ≡ get_redis_addrs getenv) × (s.shards ≢ [])
unfolding start
start-shards getenv s e = (ground arith, ground arith)

-- When the service starts, every address of a shard is a non-empty text without a comma, and with
-- fewer than 2 ^ 32 of them every room has a shard: `shardFor` never panics.
pub start_lem :
    (getenv : Bytes → Bytes) (s : Settings)
    → start getenv ≡ ok s
    → All IsAddr s.shards
      × (length s.shards < u32_mod
          → (room : Bytes) → (shard : Bytes) × (shard_for s.shards room ≡ some shard))
unfolding shard_for
start_lem getenv s e =
    let (same, some_shard) = start-shards getenv s e in
    (
      subst (All IsAddr) (sym same) (get_redis_addrs-IsAddr getenv),
      λ l room.
          let (i, found, below) =
            shard_index-lt room (length s.shards) (ground (arith, some_shard)) l in
          let (shard, got) = get_elem?-lt s.shards i below in (shard, ground (arith, found, got)),
    )
