-- ===== src/Streams/Auth.antt =====
-- services/streams/auth.go: the check of a Bearer token.
use vidcast.Base.{
  ◌≡◌, refl, ◌++◌, Bool, false, not, ◌||◌, [], arith, Bytes, codes, if◌then◌else◌, ◌==◌, bytes_eq,
  length, ◌↔◌,
}
use vidcast.Go.Strings.{has_prefix, drop, has_prefix-append, has_prefix-split}
use vidcast.Go.Http.{Request, Response}
use vidcast.Streams.HttpJson.{write_error}

abbrev pub prefix : Bytes
prefix = codes "Bearer "

abbrev pub unauthorized : Bytes
unauthorized = codes "unauthorized"

-- The guard of the handler that `requireAuth` returns. `ConstantTimeCompare` is 1 exactly on equal
-- strings.
unfoldable pub is_rejected : Bytes → Bytes → Bool
unfolding has_prefix drop
is_rejected api_key header =
    not (has_prefix header prefix) || not (drop (length prefix) header == api_key)

-- `requireAuth` around a handler on a state `S`.
module _ {ℓ} {S : Type ℓ} where
  unfoldable pub require_auth : Bytes → (S → Request → S × Response) → S → Request → S × Response
  require_auth api_key fn s r =
      if api_key == []
      then fn s r
      else if is_rejected api_key r.authorization
      then (s, write_error 401 unauthorized)
      else fn s r

drop-prefix : (s : Bytes) → drop (length prefix) (prefix ++ s) ≡ s
unfolding drop
drop-prefix s = refl

-- The guard lets exactly one header through: the word Bearer, a space and the key.
pub is_rejected_lem :
    (api_key header : Bytes) → (is_rejected api_key header ≡ false) ↔ (header ≡ prefix ++ api_key)
unfolding is_rejected
is_rejected_lem api_key header = (
  λ h.
      let (r, e) = has_prefix-split header prefix (ground arith) in
      ground (arith, e, drop-prefix r, h),
  λ e. ground (arith, e, drop-prefix api_key, has_prefix-append prefix api_key),
)
