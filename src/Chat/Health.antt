-- ===== src/Chat/Health.antt =====
-- services/chat/health.go: the health of all shards.
pub mod Ping
use vidcast.Base.{ℕ, List, [], ◌∷◌, Option, none, some, Bytes, codes}
use vidcast.Go.Http.{Response, Json, str, obj, field, end, one, json, application_json}

-- What `json.NewEncoder(w).Encode` writes under this status.
abbrev answer : ℕ → Json → Response
answer status body = record { status = status; content_type = application_json; body = json body }

-- `newRootHandler`.
unfoldable pub root_handler : Bytes → Response
root_handler version =
    answer 200 (
      obj
        (field (codes "service") (str (codes "chat")) (field (codes "version") (str version) end)))

-- The critical section of one goroutine: the first error stays.
abbrev keep_first : Option Bytes → Option Bytes → Option Bytes
keep_first (some e) result = some e
keep_first none result = result

module _ {C : Type 0} (ping : C → Option Bytes) where
  -- `firstErr` after the goroutines of these shards, in the order in which they end.
  unfoldable pub collect_errors : Option Bytes → List C → Option Bytes
  collect_errors first_err [] = first_err
  collect_errors first_err (shard ∷ shards) =
      collect_errors (keep_first first_err (ping shard)) shards

  -- `pingAllShards`; `ended` are the shards in the order in which their pings end.
  unfoldable pub ping_all_shards : List C → Option Bytes
  unfolding collect_errors
  ping_all_shards ended = collect_errors none ended

  abbrev answer_ping : Option Bytes → Response
  answer_ping (some e) =
      answer 503
        (obj (field (codes "status") (str (codes "error")) (field (codes "error") (str e) end)))
  answer_ping none = answer 200 (one (codes "status") (str (codes "ok")))

  -- `newHealthHandler`.
  unfoldable pub health_handler : List C → Response
  health_handler ended = answer_ping (ping_all_shards ended)
