-- ===== src/Chat/Config.antt =====
-- services/chat/main.go: the settings, and what is refused at the start.
pub mod Addrs
use vidcast.Base.{List, [], ◌∷◌, ◌++◌, Bytes, codes, Result, ok, err, if◌then◌else◌, ◌==◌, bytes_eq}
use vidcast.Go.Strings.{split}
use vidcast.Go.Space.{trim_space}

-- `getEnv`.
unfoldable pub get_env : (Bytes → Bytes) → Bytes → Bytes → Bytes
get_env getenv key fallback = let v = getenv key in if v == [] then fallback else v

-- The loop of `getRedisAddrs`.
unfoldable pub collect_addrs : List Bytes → List Bytes
collect_addrs [] = []
collect_addrs (part ∷ parts) =
    let rest = collect_addrs parts in
    let addr = trim_space part in if addr == [] then rest else addr ∷ rest

-- `getRedisAddrs`.
unfoldable pub get_redis_addrs : (Bytes → Bytes) → List Bytes
unfolding get_env collect_addrs split
get_redis_addrs getenv =
    collect_addrs (split b',' (get_env getenv (codes "REDIS_ADDR") (codes "localhost:6379")))

pub record Settings : Type 0 where
  pub version : Bytes
  pub addr : Bytes
  -- The address of each shard, of which a client is made.
  pub shards : List Bytes

abbrev no_address : Bytes
no_address = codes "REDIS_ADDR must specify at least one address (e.g. localhost:6379)"

abbrev with_addrs : (Bytes → Bytes) → List Bytes → Result Bytes Settings
with_addrs getenv [] = err no_address
with_addrs getenv (a ∷ addrs) = ok (record {
  version = get_env getenv (codes "VERSION") (codes "dev");
  addr = get_env getenv (codes "ADDR") (codes ":8080");
  shards = a ∷ addrs;
})

-- `main` up to the broker; an error is `log.Fatal`.
unfoldable pub start : (Bytes → Bytes) → Result Bytes Settings
start getenv = with_addrs getenv (get_redis_addrs getenv)
