-- ===== src/Go/Http.antt =====
-- `net/http`: requests and responses as the handlers see them. A request stands after the server
-- has parsed it and the mux has cleaned its path: `segments` are the parts of the path between
-- slashes, each percent-decoded by itself, so a segment can hold a slash. A response body is the
-- value that a handler encodes, not its bytes.
use vidcast.Base.{ℕ, Bool, List, [], Bytes, codes}

mutual
  pub data Json : Type 0 where
    str : Bytes → Json
    num : ℕ → Json
    bool : Bool → Json
    time : ℕ → Json
    arr : Items → Json
    obj : Fields → Json

  pub data Items : Type 0 where
    nil : Items
    item : Json → Items → Items

  pub data Fields : Type 0 where
    end : Fields
    field : Bytes → Json → Fields → Fields

pub data Body : Type 0 where
  empty : Body
  text : Bytes → Body
  json : Json → Body

pub record Request : Type 0 where
  pub method : Bytes
  pub segments : List Bytes
  -- `Header.Get("Authorization")`, empty where the header is missing.
  pub authorization : Bytes
  -- `URL.Query().Get`, empty where the parameter is missing.
  pub query : Bytes → Bytes
  pub body : Bytes
  -- `PathValue("slug")`, which the mux sets.
  pub slug : Bytes

pub record Response : Type 0 where
  pub status : ℕ
  pub content_type : Bytes
  pub body : Body

-- `w.WriteHeader(status)` and nothing else.
abbrev pub write_header : ℕ → Response
write_header status = record { status = status; content_type = []; body = empty }

-- `http.Error`.
abbrev pub http_error : Bytes → ℕ → Response
http_error message status = record {
  status = status;
  content_type = codes "text/plain; charset=utf-8";
  body = text message;
}

-- A JSON object with one or more members.
abbrev pub one : Bytes → Json → Json
one k v = obj (field k v end)

abbrev pub application_json : Bytes
application_json = codes "application/json"
