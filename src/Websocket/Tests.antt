-- ===== src/Websocket/Tests.antt =====
-- The theorems on a connection at one that follows an account.
use liberdus_proxy.Prelude.{
  true, false, ◌⊎◌, none, some, err, [], ◌∷◌, ◌++◌, Text, codes, text_eq, ◌≡◌, refl, arith,
}
use liberdus_proxy.Prelude.HashMap
use liberdus_proxy.Subscription.{UserAccountAddress, new, account, set_states, is_exist}
use liberdus_proxy.Subscription.Rpc.{RpcResponse}
use liberdus_proxy.Str.Find.{find}
use liberdus_proxy.Websocket.{State, Environment, reading, ended, close, broken, read, beat}
use liberdus_proxy.Websocket.Steps.{here, next, beats, inserts, IsGone, read-IsGone, Run-close}
use liberdus_proxy.Prelude.HashSet
use liberdus_proxy.Prelude.{ok, ltb, returned}
use liberdus_proxy.Subscription.Invariant.{new-IsConsistent}
use liberdus_proxy.Subscription.Callback.{alive, handle_update, old_timestamp}
use liberdus_proxy.Subscription.Callback.Delivered.{recipients}
use liberdus_proxy.Subscription.Rpc.{chat_event, action_from, subscribed, generate_success_response}
use liberdus_proxy.Websocket.{text}
use liberdus_proxy.Websocket.Notified.{read-subscribe_notified}
use liberdus_proxy.Websocket.Lingering
use liberdus_proxy.Websocket.Lingering.{Lingers, QuietRun-Lingers}
use liberdus_proxy.Websocket.Uuid.{generate_uuid}
use liberdus_proxy.Websocket.Uuid.Shape.{Fits, version4, generate_uuid-Fits}
use liberdus_proxy.Websocket.Drain.{rounds, sent_of, HasEnded, rounds-IsGone}
use liberdus_proxy.Websocket.Heartbeat
use liberdus_proxy.Websocket.Heartbeat.{beats-silent}

abbrev own : Text
own = codes "p"

abbrev nobody : Environment
nobody = record { from_str = λ t. err (codes "no"); closed = codes "channel closed" }

abbrev a_response : RpcResponse
a_response = record { id = some 1; result = none; error = none }

abbrev follower : State
follower = record {
  socket_id = own;
  sender = 3;
  reader = reading;
  pinging = true;
  writing = true;
  last_pong = 100;
  queue = a_response ∷ [];
  written = [];
  sock_map = (own, 3) ∷ [];
  manager = set_states (account 5) (codes "a") own new;
}

abbrev closed_follower : State
closed_follower = read nobody (returned (account 0)) 120 close follower

Run-close_example :
    IsGone
      (record closed_follower { sock_map = HashMap.insert (codes "q") 4 closed_follower.sock_map })
unfolding read
Run-close_example =
    Run-close nobody (returned (account 0)) 120 follower
      (record closed_follower { sock_map = HashMap.insert (codes "q") 4 closed_follower.sock_map })
      (next here (inserts (codes "q") 4)) (tt, refl)

-- The first message is refused.
rounds-IsGone_example :
    HasEnded
      (closed_follower.written ++ sent_of closed_follower.queue (false ∷ true ∷ []))
      (rounds (false ∷ true ∷ []) closed_follower)
unfolding read
rounds-IsGone_example =
    rounds-IsGone (false ∷ true ∷ []) closed_follower
      (read-IsGone nobody (returned (account 0)) 120 follower) refl refl

beats-silent_example :
    ((Heartbeat.beats ((160, true) ∷ (220, true) ∷ []) follower).pinging ≡ false)
    × ((true ≡ false)
        ⊎ ((a : UserAccountAddress)
            → is_exist a own (Heartbeat.beats ((160, true) ∷ (220, true) ∷ []) follower).manager
              ≡ false))
beats-silent_example = beats-silent follower 160 220 true true refl (omega arith) (omega arith)

abbrev quiet_follower : State
quiet_follower = record follower { queue = [] }

QuietRun-Lingers_example : Lingers (beat 200 true (record quiet_follower { reader = ended }))
unfolding read find HashMap.get
QuietRun-Lingers_example =
    QuietRun-Lingers nobody (returned (account 0)) 120 (broken (codes "Connection reset by peer"))
      quiet_follower (beat 200 true (record quiet_follower { reader = ended })) refl refl refl refl
      (Lingering.next Lingering.here (beats 200 true refl) tt)

generate_uuid-Fits_example : Fits version4 (generate_uuid 5)
generate_uuid-Fits_example = generate_uuid-Fits 5

abbrev asks_a : Environment
asks_a = record {
  from_str = λ t. ok (record {
    id = 7;
    method = chat_event;
    params = some (codes "Subscribe") ∷ some (codes "a") ∷ [];
  });
  closed = codes "channel closed";
}

abbrev newcomer : State
newcomer = record quiet_follower { manager = new }

abbrev subscribed_newcomer : State
subscribed_newcomer = read asks_a (returned (account 5)) 120 (text (codes "{}")) newcomer

read-subscribe_notified_example :
    (subscribed_newcomer.queue
      ≡ [] ++ (generate_success_response (some 7) (subscribed true (codes "a")) ∷ []))
    × (HashSet.contains
          (recipients (handle_update (λ socket. alive) (codes "a") 9 subscribed_newcomer.manager).0)
          own
        ≡ ltb (old_timestamp (codes "a") subscribed_newcomer.manager) 9)
unfolding action_from
read-subscribe_notified_example =
    read-subscribe_notified asks_a (account 5) 120 (codes "{}") (codes "Subscribe") (codes "a") 7 []
      newcomer (λ socket. alive) 9 refl refl refl new-IsConsistent refl
