-- ===== src/Liberdus/Tests/Choices.antt =====
-- The theorems on the choice of a node and on a forwarded request, on the small lists.
use mathlib.Core.List.{Perm}
use liberdus_proxy.Prelude.{
  Outcome, Option, ℕ, ◌==◌, ◌⊎◌, Bool, ◌≡◌, refl, true, none, [], ◌∷◌, ◌++◌, map, arith, Text,
  codes, ok, err, inl, returned, panicked,
}
use liberdus_proxy.Prelude.HashMap
use liberdus_proxy.Http.Header.{blank_line, parse_content_length}
use liberdus_proxy.Http.Collect.{chunk, collect_http, after_chunk}
use liberdus_proxy.Str.Find.{find}
use liberdus_proxy.Str.Utf8.{is_utf8}
use liberdus_proxy.Str.Lines.{lines}
use liberdus_proxy.Http.Peer.{sent}
use liberdus_proxy.Liberdus.State.{Consensor, Liberdus, set_consensor_trip_ms}
use liberdus_proxy.Liberdus.Prepare.{
  prepare_list, trip_of, accumulate, sort_by, set_bias, calculate_bias,
}
use liberdus_proxy.Liberdus.Prepare.Sorted.{IsSortedBy}
use liberdus_proxy.Liberdus.Prepare.Result.{forget_bias, AreWeights, bias_of, prepare_list_lem}
use liberdus_proxy.Liberdus.Select.{
  get_next_appropriate_consensor, get_next_appropriate_consensor_with_retry, pick, advance_index,
}
use liberdus_proxy.Liberdus.Select.Serves.{
  Serves, IsDrawable, Serves-get_next_appropriate_consensor,
}
use liberdus_proxy.Liberdus.Account.{AccountFetch, account_of, get_account_by_address}
use liberdus_proxy.Liberdus.Account.Source.{ComesFrom, get_account_by_address-source}
use liberdus_proxy.Liberdus.Send.{
  Surroundings, forward, send, handle_request, relay, reply_error, no_consensors,
}
use liberdus_proxy.Liberdus.Send.Retry.{start, next, handle_request-relay, handle_request-give_up}
use liberdus_proxy.Config.Samples.{some_config}
use liberdus_proxy.Liberdus.Tests.{
  integers, cmp_swap_integers, lowest, RngLaws-lowest, three_nodes, fresh_list, negative_list,
}

prepare_list_lem_example :
    Perm (map forget_bias (prepare_list fresh_list).active_nodelist) (map forget_bias three_nodes)
    × IsSortedBy (trip_of fresh_list.trip_ms 100) (prepare_list fresh_list).active_nodelist
    × AreWeights
        (bias_of fresh_list.trip_ms 100)
        (0, 0)
        (prepare_list fresh_list).active_nodelist
        (prepare_list fresh_list).load_distribution_commulative_bias
    × ((prepare_list fresh_list).list_prepared ≡ true)
prepare_list_lem_example = prepare_list_lem fresh_list refl

IsDrawable-fresh_list : IsDrawable (prepare_list fresh_list)
unfolding prepare_list accumulate sort_by trip_of HashMap.get set_bias calculate_bias
IsDrawable-fresh_list = inl refl

Serves-get_next_appropriate_consensor_example :
    Serves (get_next_appropriate_consensor lowest fresh_list)
Serves-get_next_appropriate_consensor_example =
    Serves-get_next_appropriate_consensor cmp_swap_integers lowest RngLaws-lowest fresh_list
      (λ p. absurd cc) IsDrawable-fresh_list

not-IsDrawable : ¬ IsDrawable negative_list
not-IsDrawable h = ground arith

-- At first the list is empty; the refresh comes while the first request waits to be sent again.
abbrev empty_list : Liberdus (ℕ × ℕ)
empty_list = record fresh_list { active_nodelist = [] }

abbrev request : Text
request = codes "GET / HTTP/1.1" ++ blank_line

abbrev response : Text
response = codes "HTTP/1.1 200 OK" ++ blank_line

abbrev answers : ℕ → Surroundings (ℕ × ℕ)
answers retry = record {
  rngs = λ k. lowest;
  others = λ k s. s;
  serves = λ node request_buffer. sent (chunk response ∷ []) 12;
}

abbrev refresh : ℕ → Liberdus (ℕ × ℕ) → Liberdus (ℕ × ℕ)
refresh retry s = fresh_list

abbrev no_refresh : ℕ → Liberdus (ℕ × ℕ) → Liberdus (ℕ × ℕ)
no_refresh retry s = s

abbrev served_list : Liberdus (ℕ × ℕ)
served_list = record fresh_list { round_robin_index = 1; pending = (codes "a", 12) ∷ [] }

send_nowhere :
    (retry : ℕ) → send (answers retry) request empty_list ≡ returned (err no_consensors, empty_list)
unfolding send get_next_appropriate_consensor_with_retry get_next_appropriate_consensor
send_nowhere retry = refl

send-response : send (answers 1) request fresh_list ≡ returned (ok response, served_list)
unfolding send get_next_appropriate_consensor_with_retry get_next_appropriate_consensor pick forward
    collect_http after_chunk find parse_content_length is_utf8 lines set_consensor_trip_ms
    advance_index
send-response = refl

handle_request-relay_example :
    handle_request answers refresh (λ n. none) some_config request empty_list
    ≡ returned (relay (λ n. none) some_config response, served_list)
handle_request-relay_example =
    handle_request-relay answers refresh (λ n. none) some_config request empty_list fresh_list
      served_list 1 response (next no_consensors start (send_nowhere 0)) (omega arith) send-response

handle_request-give_up_example :
    handle_request answers no_refresh (λ n. none) some_config request empty_list
    ≡ returned (reply_error (λ n. none) no_consensors, empty_list)
handle_request-give_up_example =
    handle_request-give_up answers no_refresh (λ n. none) some_config request empty_list empty_list
      empty_list no_consensors
      (next no_consensors (next no_consensors start (send_nowhere 0)) (send_nowhere 1))
      (send_nowhere 2)

-- The values are numbers, with 0 for `false`; each node has its port for the account.
abbrev is_zero : ℕ → Bool
is_zero v = v == 0

abbrev port_of : Consensor (ℕ × ℕ) → Text → AccountFetch ℕ
port_of node address = account_of node.port

abbrev not_collected : Outcome (Option ℕ)
not_collected = returned none

get_account_by_address-source_example :
    ((not_collected ≡ panicked)
      × (get_account_by_address 0 is_zero port_of lowest not_collected (codes "x") fresh_list
          ≡ panicked))
    ⊎ ((found : Option ℕ) × (not_collected ≡ returned found)
        × ComesFrom 0 is_zero port_of
            (codes "x")
            lowest
            found
            fresh_list
            (get_account_by_address 0 is_zero port_of lowest not_collected (codes "x") fresh_list))
get_account_by_address-source_example =
    get_account_by_address-source 0 is_zero port_of (codes "x") cmp_swap_integers lowest
      RngLaws-lowest not_collected fresh_list (λ p. absurd cc) IsDrawable-fresh_list
