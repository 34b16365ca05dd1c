-- ===== src/Observer/Answer.antt =====
-- The responses that src/observer_gateway.rs writes of its own.
use liberdus_proxy.Prelude.{ℕ, [], ◌∷◌, ◌++◌, Text, codes, ◌==◌, if◌then◌else◌, ok}
use liberdus_proxy.Http.Header.{crlf}
use liberdus_proxy.Http.Respond.{cors_allow_all, connection_close, content_length_line}
use liberdus_proxy.Http.Peer.{Client, Reply, respond}

abbrev quote : ℕ
quote = 34

abbrev backslash : ℕ
backslash = 92

-- `"` and `\` get a `\`: the first replacement puts no quote, and the second no backslash that the
-- first would see.
unfoldable pub escape_json : Text → Text
escape_json [] = []
escape_json (b ∷ bs) =
    let rest = escape_json bs in
    if b == backslash
    then backslash ∷ backslash ∷ rest
    else if b == quote
    then backslash ∷ quote ∷ rest
    else b ∷ rest

abbrev status_line : ℕ → Text
status_line status_code =
    if status_code == 200
    then codes "200 OK"
    else if status_code == 400
    then codes "400 Bad Request"
    else if status_code == 404
    then codes "404 Not Found"
    else if status_code == 405
    then codes "405 Method Not Allowed"
    else if status_code == 503
    then codes "503 Service Unavailable"
    else codes "500 Internal Server Error"

unfoldable pub json_response : ℕ → Text → Text
json_response status_code body =
    codes "HTTP/1.1 "
    ++ status_line status_code
    ++ crlf
    ++ codes "Content-Type: application/json"
    ++ crlf
    ++ content_length_line body
    ++ cors_allow_all
    ++ connection_close
    ++ body

abbrev pub preflight_response : Text
preflight_response =
    codes "HTTP/1.1 204 No Content"
    ++ crlf
    ++ cors_allow_all
    ++ codes "Access-Control-Max-Age: 86400"
    ++ crlf
    ++ content_length_line []
    ++ connection_close

-- `{"Err":"…"}`
unfoldable pub err_body : Text → Text
err_body message = codes "{\"Err\":\"" ++ message ++ codes "\"}"

unfoldable pub respond_json : Client → ℕ → Text → Reply
respond_json client status_code body =
    respond (client 0) [] (json_response status_code body) (ok tt)

unfoldable pub respond_503 : Client → Text → Reply
respond_503 client message = respond_json client 503 (err_body (escape_json message))

unfoldable pub respond_preflight : Client → Reply
respond_preflight client = respond (client 0) [] preflight_response (ok tt)
