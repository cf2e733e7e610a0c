-- ===== src/Tests/StoreKeys.antt =====
-- The stream keys of a store with one channel.
use vidcast.Base.{refl, ◌≢◌, some, arith, nat_eq, bytes_eq}
use vidcast.Base.Dict.{lookup}
use vidcast.Streams.Store.{revoke_key, find_by_key}
use vidcast.Streams.Store.Index.{IsValid, IsIndexed}
use vidcast.Streams.Store.Keys.{revoke_key_closes}
use vidcast.Tests.{sha256, alice, key_a, one_channel}

pub one_channel-IsValid : IsValid one_channel
unfolding lookup
one_channel-IsValid = record {
  nodup = (refl, tt);
  nodup_index = (refl, tt);
  slugs = λ k r e. ground arith;
  sound = λ h k e. ground arith;
}

pub one_channel-IsIndexed : IsIndexed one_channel
unfolding lookup
one_channel-IsIndexed h k e = ground arith

revoke_key_closes_example : find_by_key sha256 (revoke_key one_channel alice).0 key_a ≢ some alice
unfolding revoke_key lookup bytes_eq nat_eq
revoke_key_closes_example =
    (revoke_key_closes sha256 one_channel alice one_channel-IsValid one_channel-IsIndexed refl).0
      key_a
