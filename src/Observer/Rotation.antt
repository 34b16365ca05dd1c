-- ===== src/Observer/Rotation.antt =====
-- The order in which the observers are tried.
pub mod Turns
use liberdus_proxy.Prelude.{
  ℕ, suc, ◌+◌, ◌%◌, ◌^◌, leb, not, List, [], ◌∷◌, ◌++◌, map, Text, codes, length, take, drop,
  is_empty, if◌then◌else◌, ◌==◌,
}
use liberdus_proxy.Str.Trim.{trim}
use mathlib.Core.List.{reverse}
use liberdus_proxy.Config.{Config}

-- `rotate_left(start % n)`
unfoldable pub observer_urls_round_robin_at_start : List Text → ℕ → List Text
observer_urls_round_robin_at_start urls start =
    if leb (length urls) 1
    then urls
    else drop (start % length urls) urls ++ take (start % length urls) urls

-- With the counter `OBSERVER_RR_INDEX`, which wraps, and what it is after.
unfoldable pub observer_urls_round_robin : List Text → ℕ → List Text × ℕ
observer_urls_round_robin urls index =
    if leb (length urls) 1
    then (urls, index)
    else (observer_urls_round_robin_at_start urls index, (index + 1) % 2 ^ 64)

-- `trim_end_matches('/')`, on the reversed bytes.
drop_slashes : Text → Text
drop_slashes [] = []
drop_slashes (b ∷ bs) = let rest = drop_slashes bs in if b == b'/' then rest else b ∷ bs

clean_url : Text → Text
clean_url u = reverse (drop_slashes (reverse (trim u)))

onto_urls : Text → List Text → List Text
onto_urls [] urls = urls
onto_urls (b ∷ bs) urls = (b ∷ bs) ∷ urls

clean_urls : List Text → List Text
clean_urls [] = []
clean_urls (u ∷ us) = onto_urls (clean_url u) (clean_urls us)

unfoldable pub configured_observer_urls : Config → List Text
unfolding drop_slashes clean_url onto_urls clean_urls
configured_observer_urls config = clean_urls config.observer_urls
