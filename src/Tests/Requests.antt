-- ===== src/Tests/Requests.antt =====
-- Requests to the streams service.
use vidcast.Base.{◌≡◌, refl, inr, true, none, [], ◌∷◌, arith, Bytes, codes, ok, nat_eq, bytes_eq}
use vidcast.Base.Dict.{lookup}
use vidcast.Go.Hex
use vidcast.Go.Http.{write_header, Request}
use vidcast.Streams.Store.{hash_key, Store, get}
use vidcast.Streams.Store.Index.{IsValid}
use vidcast.Streams.MediaMtx.{read_body}
use vidcast.Streams.HttpJson.{write_json, write_error}
use vidcast.Streams.Auth.{unauthorized}
use vidcast.Streams.StreamKeys.Answers.{stream_keys_lem}
use vidcast.Streams.StreamKeys.{get_stream_key, key_body}
use vidcast.Streams.Server.{Server, endpoint, serve}
use vidcast.Streams.Server.Safety.{serve-unauthorized}
use vidcast.Streams.Server.Secrecy.{serve-get}
use vidcast.Streams.Server.Revocation.{old_key_refused}
use vidcast.Streams.Server.EndToEnd.{create_then_publish, new_key}
use vidcast.Tests.{bob, sha256, alice, raw_a, raw_b, key_a, hash_b, one_channel}
use vidcast.Tests.StoreKeys.{one_channel-IsValid}
use vidcast.Tests.Hooks.{decode, hook}

abbrev stream_key_request : Bytes → Bytes → Bytes → Request
stream_key_request method slug authorization = record {
  method = method;
  segments = codes "channels" ∷ slug ∷ codes "stream-key" ∷ [];
  authorization = authorization;
  query = λ k. [];
  body = [];
  slug = [];
}

abbrev server : Store → Server
server s = record {
  version = codes "dev";
  addr = codes ":8080";
  api_key = codes "secret";
  recordings = none;
  store = s;
}

-- The channel of `one_channel` with another key.
abbrev other_key : Store
other_key = record {
  channels = (alice, record { slug = alice; key_hash = hash_b; live = true }) ∷ [];
  by_key_hash = (hash_b, alice) ∷ [];
}

other_key-IsValid : IsValid other_key
unfolding lookup
other_key-IsValid = record {
  nodup = (refl, tt);
  nodup_index = (refl, tt);
  slugs = λ k r e. ground arith;
  sound = λ h k e. ground arith;
}

same_reading : (k : Bytes) → get one_channel k ≡ get other_key k
unfolding get lookup
same_reading k = ground arith

serve-unauthorized_example :
    (serve sha256 decode
      (ok raw_b)
      (server one_channel)
      (stream_key_request (codes "DELETE") alice (codes "Bearer guess"))).1
    ≡ write_error 401 unauthorized
unfolding endpoint bytes_eq nat_eq
serve-unauthorized_example =
    (serve-unauthorized sha256 decode (ok raw_b) (server one_channel)
      (stream_key_request (codes "DELETE") alice (codes "Bearer guess")) alice (λ e. cc) (λ e. cc)
      refl).1

serve-get_example :
    (serve sha256 decode
      (ok raw_b)
      (server one_channel)
      (stream_key_request (codes "GET") alice (codes "Bearer secret"))).1
    ≡ (serve sha256 decode
        (ok raw_b)
        (server other_key)
        (stream_key_request (codes "GET") alice (codes "Bearer secret"))).1
unfolding bytes_eq nat_eq
serve-get_example =
    (serve-get sha256 decode (ok raw_b) (server one_channel) other_key
      (stream_key_request (codes "GET") alice (codes "Bearer secret")) one_channel-IsValid
      other_key-IsValid same_reading refl).1

empty_server-IsValid : IsValid (record { channels = []; by_key_hash = [] })
unfolding lookup
empty_server-IsValid = record {
  nodup = tt;
  nodup_index = tt;
  slugs = λ k r e. ground arith;
  sound = λ h k e. ground arith;
}

create_then_publish_example :
    (serve sha256 decode
      (ok raw_a)
      (server (record { channels = []; by_key_hash = [] }))
      (stream_key_request (codes "POST") alice (codes "Bearer secret"))).1
    ≡ write_json 201 (key_body alice (new_key raw_a))
unfolding endpoint get read_body Hex.encode lookup bytes_eq nat_eq
create_then_publish_example =
    (create_then_publish sha256 decode (server (record { channels = []; by_key_hash = [] }))
      (stream_key_request (codes "POST") alice (codes "Bearer secret")) (hook 1)
      (record { action = codes "publish"; path = alice; password = key_a }) alice raw_a (ok raw_b)
      empty_server-IsValid (inr refl) refl refl refl refl refl refl refl refl).0

stream_keys_lem_example :
    get_stream_key one_channel (record (hook 1) { slug = bob })
    ≡ (one_channel, write_error 404 (codes "channel not found"))
unfolding get lookup bytes_eq nat_eq
stream_keys_lem_example =
    ((stream_keys_lem sha256 (ok raw_b) one_channel (record (hook 1) { slug = bob })).0 refl).0

old_key_refused_example :
    serve sha256 decode
      (ok raw_b)
      (serve sha256 decode
        (ok raw_b)
        (server one_channel)
        (stream_key_request (codes "DELETE") alice (codes "Bearer secret"))).0
      (hook 1)
    ≡ (
      (serve sha256 decode
          (ok raw_b)
          (server one_channel)
          (stream_key_request (codes "DELETE") alice (codes "Bearer secret"))).0,
      write_header 401,
    )
unfolding endpoint hash_key read_body Hex.encode lookup bytes_eq nat_eq
old_key_refused_example =
    (old_key_refused sha256 decode (ok raw_b) (server one_channel)
        (stream_key_request (codes "DELETE") alice (codes "Bearer secret")) (hook 1)
        (record { action = codes "publish"; path = alice; password = key_a }) alice
        one_channel-IsValid (inr refl) refl refl refl refl refl refl).0
      refl
