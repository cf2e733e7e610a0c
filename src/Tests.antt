-- ===== src/Tests.antt =====
-- Concrete inputs, and the results at these inputs. The hash stands for SHA-256 and is the identity.
mod StoreKeys
mod StoreRuns
mod Hooks
mod Requests
mod Recordings
mod Rooms
mod Pods
mod Shards
pub mod Accounts
mod Logins
mod Follows
mod Startup
mod Scripts
use vidcast.Base.{Bool, true, false, List, [], ◌∷◌, Bytes, codes, Result, ok}
use vidcast.Streams.Store.{Store, ChannelRecord}
use vidcast.Streams.Store.Runs.{Call, creates, rotates, revokes, sets_live}

abbrev pub sha256 : Bytes → Bytes
sha256 b = b

abbrev pub alice : Bytes
alice = codes "alice"

abbrev pub bob : Bytes
bob = codes "bob"

-- What `rand.Read` yields, as short as can be.
abbrev pub raw_a : Bytes
raw_a = 1 ∷ []

abbrev pub raw_b : Bytes
raw_b = 2 ∷ []

abbrev pub raw_c : Bytes
raw_c = 3 ∷ []

abbrev pub key_a : Bytes
key_a = codes "sk_01"

abbrev pub key_b : Bytes
key_b = codes "sk_02"

-- The hexadecimal form of the keys.
abbrev pub hash_a : Bytes
hash_a = codes "736b5f3031"

abbrev pub hash_b : Bytes
hash_b = codes "736b5f3032"

-- One channel, live.
abbrev pub record_a : ChannelRecord
record_a = record { slug = alice; key_hash = hash_a; live = true }

abbrev pub one_channel : Store
one_channel = record { channels = (alice, record_a) ∷ []; by_key_hash = (hash_a, alice) ∷ [] }

abbrev pub history : List Call
history =
    creates bob (ok raw_b)
    ∷ creates alice (ok raw_a)
    ∷ sets_live alice true
    ∷ rotates bob (ok raw_c)
    ∷ revokes bob
    ∷ []
