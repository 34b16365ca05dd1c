-- ===== src/Subscription/Rpc.antt =====
-- The JSON-RPC handlers (src/rpc.rs, and `rpc_handler` in src/subscription.rs).
pub mod Totality
use liberdus_proxy.Prelude.{
  ℕ, ◌+◌, ◌&&◌, Bool, true, false, Option, none, some, List, [], ◌∷◌, map, Text, codes, text_beq,
  leb, if◌then◌else◌, Outcome, returned, panicked, Result, ok, err,
}
use liberdus_proxy.Subscription.{
  SocketId, UserAccountAddress, Inner, AccountReply, subscribe_fetched, unsubscribe,
  get_all_subscriptions,
}

pub data Methods : Type 0 where
  chat_event get_subscriptions : Methods

-- A parameter of a request is a JSON value, of which the code reads `as_str()`.
pub record RpcRequest : Type 0 where
  pub id : ℕ
  pub method : Methods
  pub params : List (Option Text)

pub data RpcErrorCode : Type 0 where
  parse_error invalid_request method_not_found invalid_params internal_error : RpcErrorCode

pub record RpcError : Type 0 where
  pub code : RpcErrorCode
  pub message : Text

-- The JSON objects that the handlers build.
pub data RpcResult : Type 0 where
  subscribed : Bool → UserAccountAddress → RpcResult
  unsubscribed : Bool → UserAccountAddress → RpcResult
  subscribed_accounts : List UserAccountAddress → RpcResult

-- `jsonrpc` is the constant "2.0".
pub record RpcResponse : Type 0 where
  pub id : Option ℕ
  pub result : Option RpcResult
  pub error : Option RpcError

unfoldable pub generate_success_response : Option ℕ → RpcResult → RpcResponse
generate_success_response id result = record { id = id; result = some result; error = none }

unfoldable pub generate_error_response : Option ℕ → Text → RpcErrorCode → RpcResponse
generate_error_response id error_msg code = record {
  id = id;
  result = none;
  error = some (record { code = code; message = error_msg });
}

pub data SubscriptionActions : Type 0 where
  subscribe_action unsubscribe_action : SubscriptionActions

abbrev pub ascii_lower : ℕ → ℕ
ascii_lower c = if leb b'A' c && leb c b'Z' then c + 32 else c

-- `From<&str>`: the text in lower case is one of two words, or the conversion panics. No letter
-- outside ASCII has a letter of the two words as its lower case.
unfoldable pub action_from : Text → Outcome SubscriptionActions
action_from s =
    if text_beq (map ascii_lower s) (codes "subscribe")
    then returned subscribe_action
    else if text_beq (map ascii_lower s) (codes "unsubscribe")
    then returned unsubscribe_action
    else panicked

-- `value.as_str().unwrap_or("")`
abbrev pub text_or_empty : Option Text → Text
text_or_empty none = []
text_or_empty (some t) = t

subscribed_answer : ℕ → UserAccountAddress → Outcome (Bool × Inner) → Outcome (RpcResponse × Inner)
subscribed_answer id addr panicked = panicked
subscribed_answer id addr (returned (_, s)) =
    returned (generate_success_response (some id) (subscribed true addr), s)

perform :
    Outcome AccountReply
    → ℕ
    → SubscriptionActions
    → SocketId
    → UserAccountAddress
    → Inner
    → Outcome (RpcResponse × Inner)
perform fetched id subscribe_action socket_id addr s =
    subscribed_answer id addr (subscribe_fetched fetched socket_id addr s)
perform fetched id unsubscribe_action socket_id addr s =
    let (status, s') = unsubscribe socket_id addr s in
    returned (generate_success_response (some id) (unsubscribed status addr), s')

-- The action is converted before `params[1]` is read; an index past the end panics.
act_on :
    Outcome AccountReply
    → ℕ
    → Outcome SubscriptionActions
    → List (Option Text)
    → SocketId
    → Inner
    → Outcome (RpcResponse × Inner)
act_on reply id panicked rest socket_id s = panicked
act_on reply id (returned action) [] socket_id s = panicked
act_on reply id (returned action) (addr ∷ rest) socket_id s =
    perform reply id action socket_id (text_or_empty addr) s

handle_params :
    Outcome AccountReply → ℕ → List (Option Text) → SocketId → Inner → Outcome (RpcResponse × Inner)
handle_params reply id [] socket_id s = panicked
handle_params reply id (action ∷ rest) socket_id s =
    act_on reply id (action_from (text_or_empty action)) rest socket_id s

unfoldable pub handle_subscriptions :
    Outcome AccountReply → RpcRequest → SocketId → Inner → Outcome (RpcResponse × Inner)
unfolding handle_params act_on perform subscribed_answer
handle_subscriptions reply req socket_id s = handle_params reply req.id req.params socket_id s

unfoldable pub list_subscriptions : RpcRequest → Inner → RpcResponse
list_subscriptions request s =
    generate_success_response (some request.id) (subscribed_accounts (get_all_subscriptions s))

dispatch :
    Methods → Outcome AccountReply → RpcRequest → SocketId → Inner → Outcome (RpcResponse × Inner)
dispatch chat_event reply request socket_id s = handle_subscriptions reply request socket_id s
dispatch get_subscriptions reply request socket_id s = returned (list_subscriptions request s, s)

-- What `handle` comes to: whether the transmitter took the response, the response, and the state.
transmit : Bool → Outcome (RpcResponse × Inner) → Outcome (Result RpcResponse RpcResponse × Inner)
transmit is_open panicked = panicked
transmit is_open (returned (resp, s)) = returned (if is_open then (ok resp, s) else (err resp, s))

-- `handle`: the response is computed, then sent. `is_open` says whether the send succeeds; where it
-- does not, the state has changed all the same.
unfoldable pub handle :
    Bool
    → Outcome AccountReply
    → RpcRequest
    → SocketId
    → Inner
    → Outcome (Result RpcResponse RpcResponse × Inner)
unfolding dispatch transmit
handle is_open reply request socket_id s =
    transmit is_open (dispatch request.method reply request socket_id s)
