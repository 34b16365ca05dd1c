-- ===== src/Observer/Tests.antt =====
-- The theorems on the gateway at two observers.
use liberdus_proxy.Prelude.{
  ℕ, ◌<◌, List, [], ◌∷◌, ◌++◌, Text, codes, text_beq, text_eq, false, none, some, ok, ◌≡◌, refl,
  ◌↔◌, arith, get_elem?, if◌then◌else◌,
}
use liberdus_proxy.Str.Find.{find}
use liberdus_proxy.Json.{
  pos, Serde, Value, Fields, number, pos_int, string, array, object, last, item, last_field, field,
  get_field,
}
use liberdus_proxy.Config.{Config}
use liberdus_proxy.Config.Samples.{some_config}
use liberdus_proxy.Http.Header.{blank_line}
use liberdus_proxy.Observer.{handle_request}
use liberdus_proxy.Observer.Query.{
  Params, print_params, parse_query_params, validate_params, normalize_transaction_route_params,
  parse_since_tx_timestamp,
}
use liberdus_proxy.Observer.Query.Resent.{IsPlain, done, param, get-parse_query_params}
use liberdus_proxy.Prelude.HashMap.{get}
use liberdus_proxy.Observer.Query.Accepted.{IsAccepted, validate_params_iff}
use liberdus_proxy.Observer.Rotation.{observer_urls_round_robin, observer_urls_round_robin_at_start}
use liberdus_proxy.Observer.Rotation.Turns.{order, order-each_first}
use liberdus_proxy.Observer.Filter.{filter_transaction_response_by_timestamp}
use liberdus_proxy.Observer.Filter.Recent.{Filtered, filter-Filtered}
use liberdus_proxy.Observer.Forward.{
  Observed, no_response, responded, forward_transaction_get_to_observers,
}
use liberdus_proxy.Observer.Forward.First.{none_came, IsDelivered, forward-first}
use liberdus_proxy.Observer.Posts.{NotifiesAllOrNot, handle_request-posts}

abbrev printed_params : Params
printed_params = (codes "a", codes "b&c") ∷ (codes "d", []) ∷ []

abbrev printed_params-IsPlain : IsPlain printed_params
unfolding get
printed_params-IsPlain =
    param (((omega arith, omega arith), refl, refl), tt)
      (omega arith, (omega arith, (omega arith, tt))) refl
      (param (((omega arith, omega arith), refl, refl), tt) tt refl done)

get-parse_query_params_example :
    get (codes "a") (parse_query_params (print_params printed_params)) ≡ some (codes "b&c")
unfolding get
get-parse_query_params_example =
    get-parse_query_params printed_params (codes "a") printed_params-IsPlain

abbrev some_params : Params
some_params = (codes "page", codes "3") ∷ (codes "unprocessed", codes "true") ∷ []

validate_params_iff_example : (validate_params some_params ≡ ok tt) ↔ IsAccepted some_params
validate_params_iff_example = validate_params_iff some_params

abbrev two_urls : List Text
two_urls = codes "http://a" ∷ codes "http://b" ∷ []

order-each_first_example :
    (d : ℕ) × (d < 2) × (get_elem? (order two_urls 7 d) 0 ≡ get_elem? two_urls 0)
order-each_first_example = order-each_first two_urls 7 0 (omega arith) (omega arith)

abbrev old_tx : Value
old_tx = object (field (codes "txTimestamp") (number (pos_int 5)) last_field)

abbrev some_fields : Fields
some_fields =
    field (codes "transactions") (array (item old_tx (item (string (codes "x")) last))) last_field

abbrev some_response : Fields
some_response = field (codes "Ok") (object some_fields) last_field

abbrev one_value : Serde
one_value = record { from_slice = λ text. ok (object some_response); to_vec = λ v. codes "{}" }

filter-Filtered_example :
    (outer' : Fields) × (fields' : Fields) × (filter_transaction_response_by_timestamp one_value
        (codes "{}")
        (pos 6)
      ≡ ok (one_value.to_vec (object outer')))
    × (get_field (codes "Ok") outer' ≡ some (object fields'))
    × ((k : Text)
        → text_beq (codes "Ok") k ≡ false
        → get_field k outer' ≡ get_field k some_response)
    × Filtered (pos 6) (old_tx ∷ string (codes "x") ∷ []) some_fields fields'
unfolding get_field
filter-Filtered_example =
    filter-Filtered one_value (codes "{}") (pos 6) some_response some_fields
      (item old_tx (item (string (codes "x")) last)) refl refl refl

abbrev one_answers : Text → Observed
one_answers url =
    if text_beq url (codes "http://a/transaction")
    then responded 200 (ok (codes "{}"))
    else no_response (codes "refused")

forward-first_example :
    IsDelivered one_value
      (parse_since_tx_timestamp (normalize_transaction_route_params (codes "/transaction")))
      (ok (codes "{}"))
      ((forward_transaction_get_to_observers one_value one_answers
        (λ n. none)
        (codes "/transaction")
        two_urls
        7).0)
unfolding observer_urls_round_robin observer_urls_round_robin_at_start
    normalize_transaction_route_params find
forward-first_example =
    forward-first one_value one_answers (λ n. none) (codes "/transaction") two_urls 7 refl
      (codes "http://b" ∷ []) (codes "http://a") [] 200 (ok (codes "{}")) refl refl refl
      (none_came (codes "refused"), tt) refl refl

abbrev notify_request : Text
notify_request = codes "POST /observer/notify-bridgeout HTTP/1.1" ++ blank_line ++ codes "{}"

abbrev one_chain : Serde
one_chain = record {
  from_slice = λ text. ok (object (field (codes "chainId") (number (pos_int 5)) last_field));
  to_vec = λ v. [];
}

abbrev with_observers : Config
with_observers = record some_config { observer_urls = codes "http://a/" ∷ codes " http://b" ∷ [] }

handle_request-posts_example :
    NotifiesAllOrNot one_chain
      (λ n. none)
      one_answers
      with_observers
      notify_request
      ((handle_request one_chain (λ n. none) one_answers with_observers notify_request 0).0)
handle_request-posts_example =
    handle_request-posts one_chain (λ n. none) one_answers with_observers notify_request 0
