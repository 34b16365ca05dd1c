-- ===== src/Http/Respond.antt =====
-- The responses that src/http.rs writes of its own, as the bytes of each `write_all`.
use liberdus_proxy.Prelude.{List, [], ◌∷◌, ◌++◌, Text, codes, length}
use liberdus_proxy.Str.Decimal.{decimal}
use liberdus_proxy.Http.Header.{crlf}

-- `CORS_ALLOW_ALL`
abbrev pub cors_allow_all : Text
cors_allow_all =
    codes "Access-Control-Allow-Origin: *"
    ++ crlf
    ++ codes "Access-Control-Allow-Methods: GET, POST, OPTIONS"
    ++ crlf
    ++ codes "Access-Control-Allow-Headers: Content-Type, Authorization"
    ++ crlf

abbrev pub connection_close : Text
connection_close = codes "Connection: close" ++ crlf ++ crlf

abbrev pub content_length_line : Text → Text
content_length_line body = codes "Content-Length: " ++ decimal (length body) ++ crlf

abbrev pub internal_error : Text
internal_error =
    codes "HTTP/1.1 500 Internal Server Error"
    ++ crlf
    ++ cors_allow_all
    ++ content_length_line []
    ++ connection_close

abbrev pub notfound : Text
notfound =
    codes "HTTP/1.1 404 Not Found"
    ++ crlf
    ++ cors_allow_all
    ++ content_length_line []
    ++ connection_close

-- The header of a JSON response.
abbrev pub json_header : Text → Text → Text
json_header status body =
    codes "HTTP/1.1 "
    ++ status
    ++ crlf
    ++ codes "Content-Type: application/json"
    ++ crlf
    ++ content_length_line body
    ++ cors_allow_all
    ++ connection_close

-- The header and the body are written one after the other.
unfoldable pub respond_with_json : Text → List Text
respond_with_json body = json_header (codes "200 OK") body ∷ body ∷ []

abbrev pub gateway_timeout : Text
gateway_timeout =
    let body = codes "{\"Err\":\"Gateway timeout\"}" in
    json_header (codes "504 Gateway Timeout") body ++ body
