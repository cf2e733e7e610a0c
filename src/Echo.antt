-- ===== src/Echo.antt =====
-- services/echo: main.go and handler.go.
use vidcast.Base.{Bytes, codes, [], Result, ok, err, if◌then◌else◌, ◌==◌, bytes_eq}
use vidcast.Go.Http.{Response, str, obj, field, end, json, application_json, http_error}

-- `newHandler`; the argument is what `os.Hostname` gives.
unfoldable pub handler : Bytes → Result Bytes Bytes → Response
handler version (err e) = http_error e 500
handler version (ok hostname) = record {
  status = 200;
  content_type = application_json;
  body =
      json
        (obj (field (codes "hostname") (str hostname) (field (codes "version") (str version) end)));
}

abbrev or_default : Bytes → Bytes → Bytes
or_default v fallback = if v == [] then fallback else v

-- The version and the address of `main`.
unfoldable pub settings : (Bytes → Bytes) → Bytes × Bytes
settings getenv = (
  or_default (getenv (codes "VERSION")) (codes "dev"),
  or_default (getenv (codes "ADDR")) (codes ":8080"),
)
