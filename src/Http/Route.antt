-- ===== src/Http/Route.antt =====
-- What src/http.rs reads from a request: the route, the application it is for, and the client's
-- headers.
use liberdus_proxy.Prelude.{
  Bool, false, ◌||◌, Option, none, some, List, [], ◌∷◌, map, Text, codes, length, drop, text_beq,
  if◌then◌else◌,
}
use liberdus_proxy.Str.Utf8.{is_utf8}
use liberdus_proxy.Str.Find.{starts_with, split_once}
use liberdus_proxy.Str.Lines.{lines}
use liberdus_proxy.Str.Trim.{trim, split_whitespace}
use liberdus_proxy.Http.Header.{ascii_lower}

pub data Application : Type 0 where
  validator collector notifier monitor debug observer_gateway : Application

abbrev pub is_one_of : Text → List Text → Bool
is_one_of text [] = false
is_one_of text (x ∷ xs) = text_beq text x || is_one_of text xs

-- The four `is_…_route` of the applications' modules.
unfoldable pub is_observer_route : Text → Bool
is_observer_route route = starts_with route (codes "/observer")

abbrev pub monitor_routes : List Text
monitor_routes =
    codes "/style.css"
    ∷ codes "/app.js"
    ∷ codes "/version.js"
    ∷ codes "/fabric.js"
    ∷ codes "/auth.js"
    ∷ codes "/favicon.ico"
    ∷ codes "/axios.min.js"
    ∷ codes "/popmotion.min.js"
    ∷ codes "/api/report"
    ∷ codes "/api/status"
    ∷ codes "/api/version"
    ∷ codes "/milky-way2.png"
    ∷ codes "/logo.png"
    ∷ codes "/"
    ∷ []

unfoldable pub is_monitor_route : Text → Bool
is_monitor_route route = is_one_of route monitor_routes

unfoldable pub is_collector_route : Text → Bool
is_collector_route route = starts_with route (codes "/collector")

unfoldable pub is_notifier_route : Text → Bool
is_notifier_route route = starts_with route (codes "/notifier")

unfoldable pub get_application : Text → Text → Application
get_application method route =
    if is_observer_route route
    then observer_gateway
    else if is_monitor_route route
    then monitor
    else if is_collector_route route
    then collector
    else if is_notifier_route route
    then notifier
    else if starts_with route (codes "/get_subscriptions")
    then debug
    else validator

abbrev pub methods : List Text
methods =
    codes "GET"
    ∷ codes "POST"
    ∷ codes "PUT"
    ∷ codes "DELETE"
    ∷ codes "PATCH"
    ∷ codes "OPTIONS"
    ∷ codes "HEAD"
    ∷ []

-- A line with two words, of which the first is a method.
abbrev pub route_in : List Text → Option (Text × Text)
route_in (method ∷ path ∷ rest) = if is_one_of method methods then some (method, path) else none
route_in _ = none

-- The first such line decides.
unfoldable pub first_route : List Text → Option (Text × Text)
first_route [] = none
first_route (line ∷ rest) =
    let later = first_route rest in
    elim (route_in (split_whitespace line)) [ none ↦ later | some found ↦ some found ]

unfoldable pub get_route : Text → Option (Text × Text)
unfolding first_route
get_route buffer = if is_utf8 buffer then first_route (lines buffer) else none

abbrev pub has_name : Text → Text → Bool
has_name name line = starts_with (map ascii_lower line) name

-- `line[n..].trim()` behind a name of n bytes.
abbrev pub value_after : Text → Text → Text
value_after name line = trim (drop (length name) line)

user_agent_in : List Text → Text
user_agent_in [] = codes "Unknown"
user_agent_in (line ∷ rest) =
    let later = user_agent_in rest in
    if has_name (codes "user-agent:") line then value_after (codes "user-agent:") line else later

unfoldable pub extract_user_agent : Text → Text
unfolding user_agent_in
extract_user_agent buffer = if is_utf8 buffer then user_agent_in (lines buffer) else codes "Unknown"

-- The part before the first ",".
abbrev pub first_of : Text → Text
first_of ips = (split_once ips (codes ",")).0

client_ip_in : List Text → Text → Text
client_ip_in [] peer_addr = peer_addr
client_ip_in (line ∷ rest) peer_addr =
    let later = client_ip_in rest peer_addr in
    if has_name (codes "x-forwarded-for:") line
    then trim (first_of (value_after (codes "x-forwarded-for:") line))
    else if has_name (codes "x-real-ip:") line
    then value_after (codes "x-real-ip:") line
    else later

unfoldable pub extract_client_ip : Text → Text → Text
unfolding client_ip_in
extract_client_ip buffer peer_addr =
    if is_utf8 buffer then client_ip_in (lines buffer) peer_addr else peer_addr

pub record ClientInfo : Type 0 where
  pub platform : Text
  pub app_version : Text
  pub device_id : Text

-- One line's turn: a later line of the same name overwrites.
abbrev pub put_info : Text → ClientInfo → ClientInfo
put_info line info =
    if has_name (codes "x-platform:") line
    then record info { platform = value_after (codes "x-platform:") line }
    else if has_name (codes "x-app-version:") line
    then record info { app_version = value_after (codes "x-app-version:") line }
    else if has_name (codes "x-device-id:") line
    then record info { device_id = value_after (codes "x-device-id:") line }
    else info

put_infos : List Text → ClientInfo → ClientInfo
put_infos [] info = info
put_infos (line ∷ rest) info = put_infos rest (put_info line info)

abbrev pub unknown_client : ClientInfo
unknown_client = record {
  platform = codes "Unknown";
  app_version = codes "Unknown";
  device_id = codes "Unknown";
}

unfoldable pub extract_client_info : Text → ClientInfo
unfolding put_infos
extract_client_info buffer =
    if is_utf8 buffer then put_infos (lines buffer) unknown_client else unknown_client
