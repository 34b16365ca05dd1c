-- ===== src/Proxy/Tests/Nodes.antt =====
-- A connection with one request for a node, of which there is one.
use liberdus_proxy.Prelude.{ℕ, none, refl, arith, [], ◌∷◌, ◌++◌, Text, codes}
use liberdus_proxy.Config.Samples.{some_config}
use liberdus_proxy.Str.Utf8.{is_utf8}
use liberdus_proxy.Http.Header.{blank_line}
use liberdus_proxy.Http.Stream.{collected, idle, cuts_character, handle_stream}
use liberdus_proxy.Liberdus.State.{
  Liberdus, new, install, set_consensor_trip_ms, filter_nodes, replace_ips,
}
use liberdus_proxy.Liberdus.Select.{
  advance_index, pick, get_next_appropriate_consensor, round_robin,
}
use liberdus_proxy.Liberdus.Sound.{IsSound}
use liberdus_proxy.Liberdus.Sound.Steps.{
  PromptRun, here, next, refreshes, chooses, records, PromptRun-IsSound,
}
use liberdus_proxy.Monitor.Routes.{start}
use liberdus_proxy.Proxy.{Proxy, handlers}
use liberdus_proxy.Proxy.Connection.{ReturnsAs}
use liberdus_proxy.Proxy.Nodes.{IsTimely, Reaches-handle_stream}
use liberdus_proxy.Liberdus.Sound.Samples.{
  whole, SignLaws-whole, FloatLaws-whole, zeros, RngLaws-zeros, one_node,
}
use liberdus_proxy.Proxy.Tests.{no_json, silent, first_state}

abbrev at_work : Liberdus ℕ
at_work = record (new [] some_config) {
  active_nodelist = one_node;
  round_robin_index = 1;
  pending = (codes "a", 30) ∷ [];
}

at_work_reached : PromptRun (new [] some_config) at_work
unfolding new install filter_nodes replace_ips get_next_appropriate_consensor advance_index pick
    round_robin set_consensor_trip_ms
at_work_reached =
    next (next (next here (refreshes one_node) tt) (chooses zeros _ _ refl) tt)
      (records (codes "a") 30) (omega arith)

PromptRun-IsSound_example : IsSound whole 100 at_work
PromptRun-IsSound_example =
    PromptRun-IsSound SignLaws-whole [] some_config at_work (omega arith) at_work_reached

silent-IsTimely : (n : ℕ) → IsTimely 100 silent
silent-IsTimely n = record {
  nodes = λ k. record {
    draws = λ k'. RngLaws-zeros;
    others = λ k' s. here;
    answers = λ node request reads elapsed h. absurd (cc);
  };
  others = λ k s. here;
  monitor = λ c reached. reached;
}

abbrev working_state : Proxy ℕ
working_state = record first_state { liberdus = at_work }

abbrev node_request : Text
node_request = codes "GET /nodeinfo HTTP/1.1" ++ blank_line

Reaches-handle_stream_example : ReturnsAs (PromptRun at_work) first_state.manager (
    handle_stream
      (handlers no_json (λ n. silent) some_config)
      some_config
      (λ n. none)
      (collected node_request ∷ idle ∷ [])
      working_state)
unfolding cuts_character is_utf8
Reaches-handle_stream_example =
    Reaches-handle_stream SignLaws-whole FloatLaws-whole no_json (λ n. silent) some_config
      (λ n. none) 100 silent-IsTimely working_state PromptRun-IsSound_example
      (collected node_request ∷ idle ∷ []) ((λ none. refl, λ method route e h. tt), (tt, tt)) start
