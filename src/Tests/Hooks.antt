-- ===== src/Tests/Hooks.antt =====
-- The hooks of MediaMTX on a store with one channel. A body of one byte stands for its JSON text.
use vidcast.Base.{
  ℕ, ◌≡◌, refl, Bool, true, false, [], ◌∷◌, arith, Bytes, codes, Result, ok, err, nat_eq, bytes_eq,
  if◌then◌else◌, ◌==◌,
}
use vidcast.Base.Dict.{lookup, insert}
use vidcast.Go.Hex
use vidcast.Go.Http.{Request}
use vidcast.Streams.Store.{Store, rotate_key, generate_key, find_by_key, hash_key, get}
use vidcast.Streams.Store.Index.{IsValid}
use vidcast.Streams.Store.Listing.{live_in}
use vidcast.Streams.MediaMtx.{AuthWebhookRequest, read_body, auth, unpublish}
use vidcast.Streams.MediaMtx.Lifecycle.{stream_by_path}
use vidcast.Streams.MediaMtx.Elsewhere.{publish_elsewhere}
use vidcast.Streams.MediaMtx.Races.{unpublish_after_rotate}
use vidcast.Tests.{sha256, record_a, hash_a, hash_b, bob, alice, raw_b, key_a, key_b, one_channel}
use vidcast.Tests.StoreKeys.{one_channel-IsValid}

-- A publish request with the key as its password, and the path that is the slug.
abbrev by_password : AuthWebhookRequest
by_password = record { action = codes "publish"; path = alice; password = key_a }

-- A publish request with the key at the end of its path.
abbrev by_path : AuthWebhookRequest
by_path = record { action = codes "publish"; path = codes "live/sk_01"; password = [] }

abbrev wrong : AuthWebhookRequest
wrong = record { action = codes "publish"; path = codes "live"; password = key_b }

-- Alice's key under the path of Bob.
abbrev elsewhere : AuthWebhookRequest
elsewhere = record { action = codes "publish"; path = bob; password = key_a }

abbrev two_channels : Store
two_channels = record {
  channels = (alice, record_a) ∷ (bob, record { slug = bob; key_hash = hash_b; live = true }) ∷ [];
  by_key_hash = (hash_a, alice) ∷ (hash_b, bob) ∷ [];
}

two_channels-IsValid : IsValid two_channels
unfolding lookup bytes_eq nat_eq
two_channels-IsValid = record {
  nodup = (refl, (refl, tt));
  nodup_index = (refl, (refl, tt));
  slugs = λ k r e. ground arith;
  sound = λ h k e. ground arith;
}

abbrev pub decode : Bytes → Bool → Result Bytes AuthWebhookRequest
decode body cut =
    if body == 1 ∷ []
    then ok by_password
    else if body == 2 ∷ []
    then ok by_path
    else if body == 3 ∷ []
    then ok wrong
    else if body == 4 ∷ []
    then ok elsewhere
    else err (codes "unexpected EOF")

abbrev pub hook : ℕ → Request
hook n = record {
  method = codes "POST";
  segments = codes "mediamtx" ∷ codes "auth" ∷ [];
  authorization = [];
  query = λ k. [];
  body = n ∷ [];
  slug = [];
}

stream_by_path_example :
    live_in
      (unpublish sha256 decode (auth sha256 decode one_channel (hook 2)).0 (hook 2)).0.channels
      alice
    ≡ false
unfolding find_by_key hash_key Hex.encode lookup read_body bytes_eq nat_eq
stream_by_path_example =
    (stream_by_path sha256 decode one_channel one_channel-IsValid (hook 2) (hook 2) by_path by_path
        (codes "live") key_a alice refl refl refl refl refl refl (λ e. cc) (omega arith) refl).1
      alice

publish_elsewhere_example :
    live_in
      (unpublish sha256 decode (auth sha256 decode two_channels (hook 4)).0 (hook 4)).0.channels
      alice
    ≡ true
unfolding find_by_key hash_key Hex.encode lookup read_body bytes_eq nat_eq
publish_elsewhere_example =
    (publish_elsewhere sha256 decode two_channels two_channels-IsValid (hook 4) (hook 4) elsewhere
      elsewhere alice bob hash_b refl refl refl (λ e. cc) refl refl (λ e. cc) (λ e. cc)
      (omega arith) refl refl refl).1

unpublish_after_rotate_example :
    live_in (rotate_key sha256 one_channel alice (ok raw_b)).0.channels alice ≡ true
unfolding insert rotate_key generate_key find_by_key hash_key get Hex.encode lookup read_body
    bytes_eq nat_eq
unpublish_after_rotate_example =
    (unpublish_after_rotate sha256 decode one_channel one_channel-IsValid alice key_a key_b
      (codes "live") (ok raw_b) (hook 2) by_path refl refl refl (λ e. cc) refl (λ e. cc)
      (omega arith) refl refl).1
