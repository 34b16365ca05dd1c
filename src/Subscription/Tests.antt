-- ===== src/Subscription/Tests.antt =====
-- The manager's theorems on small states.
use liberdus_proxy.Prelude.{
  List, ◌<◌, ◌≡◌, ◌↔◌, refl, true, false, not, ◌&&◌, All, some, [], ◌∷◌, arith, Text, codes,
  text_eq, text_beq, if◌then◌else◌,
}
use liberdus_proxy.Prelude.HashMap
use liberdus_proxy.Prelude.HashMap.{contains_key}
use liberdus_proxy.Prelude.HashSet
use liberdus_proxy.Subscription.{
  SocketId, Inner, new, account, current_timestamp, set_states, is_exist,
}
use liberdus_proxy.Subscription.Index.{insert_into}
use liberdus_proxy.Subscription.Invariant.{IsConsistent}
use liberdus_proxy.Subscription.Callback.{
  AccountUpdate, Delivery, absent, alive, listen_account_update_callback, handle_update,
  old_timestamp, update_timestamp,
}
use liberdus_proxy.Subscription.Callback.Laws.{callback_replay}
use liberdus_proxy.Subscription.Callback.Delivered.{
  handle_update_fresh, recipients, is_alive, Carries,
}
use liberdus_proxy.Subscription.Interleaving.{Reach, here, next, set, Reach-IsConsistent}
use liberdus_proxy.Subscription.Refinement.{
  Call, call_subscribe, call_unsubscribe, call_unsubscribe_all, perform_each, specified_each,
  following, seen, perform_each-refines,
}
use liberdus_proxy.Prelude.{returned}
use liberdus_proxy.Subscription.Rpc.{RpcRequest, Methods, handle_subscriptions}
use liberdus_proxy.Subscription.Rpc.Totality.{
  is_returned, IsAnswerable, is_returned-handle_subscriptions,
}

abbrev alice : Text
alice = codes "a"

abbrev bob : Text
bob = codes "b"

abbrev phone : Text
phone = codes "p"

abbrev laptop : Text
laptop = codes "l"

-- Two sockets follow one account, one of them a second account.
abbrev followed : Inner
followed =
    set_states (account 7) bob phone
      (set_states (account 5) alice laptop (set_states (account 5) alice phone new))

abbrev followed_reached : Reach new followed
followed_reached =
    next (next (next here (set (account 5) alice phone)) (set (account 5) alice laptop))
      (set (account 7) bob phone)

abbrev only_phone : SocketId → Delivery
only_phone j = if text_beq j phone then alive else absent

abbrev update : AccountUpdate
update = record { account_id = alice; chat_timestamp = some 9 }

alice_old : old_timestamp alice followed < 9
unfolding old_timestamp update_timestamp set_states HashMap.get HashMap.insert current_timestamp
alice_old = omega arith

alice_followed : contains_key alice followed.socks_by_account ≡ true
unfolding set_states insert_into HashMap.get HashMap.insert
alice_followed = refl

Reach-IsConsistent_example : IsConsistent followed
Reach-IsConsistent_example = Reach-IsConsistent followed_reached

callback_replay_example :
    listen_account_update_callback only_phone
      (some update)
      (listen_account_update_callback only_phone (some update) followed).1
    ≡ ([], (listen_account_update_callback only_phone (some update) followed).1)
callback_replay_example =
    callback_replay only_phone (some update) followed (Reach-IsConsistent followed_reached)

handle_update_fresh_example :
    (HashSet.contains (recipients (handle_update only_phone alice 9 followed).0) laptop
      ≡ (is_exist alice laptop followed && is_alive (only_phone laptop)))
    × All (Carries only_phone alice 9) (handle_update only_phone alice 9 followed).0
    × (is_exist alice laptop (handle_update only_phone alice 9 followed).1 ≡ (
        if is_exist alice laptop followed && not (is_alive (only_phone laptop))
        then false
        else is_exist alice laptop followed))
handle_update_fresh_example =
    handle_update_fresh only_phone alice 9 followed (Reach-IsConsistent followed_reached) alice
      laptop alice_followed alice_old

abbrev chat_event : RpcRequest
chat_event = record {
  id = 1;
  method = Methods.chat_event;
  params = some (codes "subscribe") ∷ some bob ∷ [];
}

is_returned-handle_subscriptions_example :
    (is_returned (handle_subscriptions (returned (account 7)) chat_event laptop followed) ≡ true)
    ↔ IsAnswerable (returned (account 7)) laptop followed chat_event.params
is_returned-handle_subscriptions_example =
    is_returned-handle_subscriptions (returned (account 7)) chat_event laptop followed

abbrev calls : List Call
calls =
    call_subscribe (account 5) laptop bob
    ∷ call_unsubscribe phone alice
    ∷ call_unsubscribe_all laptop
    ∷ []

perform_each-refines_example :
    seen (perform_each calls followed) ≡ specified_each calls (following followed)
perform_each-refines_example = perform_each-refines calls followed
