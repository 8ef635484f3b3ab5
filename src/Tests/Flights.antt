-- ===== src/Tests/Flights.antt =====
-- Two requests for one host, up to the messages of both channels.
use hcpp.Common.{ℕ, ◌+◌, ◌≤◌, List, [], ◌∷◌, none, ◌≡◌, ◌≢◌, ◌↔◌, refl, equal}
use hcpp.Resolver.{
  HostEdp, SlowDns, same, find_key, erase_key, push_back, enter, publish, wake, send_each,
}
use hcpp.Resolver.Flights.{
  waking, System, joins, starts, resolves, publishes, wakes, start, Reach, here, next,
}
use hcpp.Resolver.Single.{flights, single_flight, wake-defined}
use hcpp.Resolver.Waiters.{count, waiting, sent, Reach-IsAccounted, Reach-quiet}

abbrev key : HostEdp
key = (97 ∷ [], 98 ∷ [])

abbrev running : List ℕ → List (HostEdp × List ℕ)
running cs = (key, cs) ∷ []

abbrev state : List (HostEdp × ℕ) → List (HostEdp × List ℕ) → SlowDns ℕ
state cache table = record { edp_cache = cache; resolve_running = table }

abbrev at_work : System ℕ
at_work = record {
  dns = state ((key, 7) ∷ []) (running (1 ∷ 2 ∷ []));
  tasks = waking key 7 ∷ [];
  mail = [];
  entered = 2 ∷ 1 ∷ [];
  dropped = [];
}

abbrev at_rest : System ℕ
at_rest = record {
  dns = state ((key, 7) ∷ []) [];
  tasks = [];
  mail = (1, 7) ∷ (2, 7) ∷ [];
  entered = 2 ∷ 1 ∷ [];
  dropped = [];
}

at_work-reached : Reach [] at_work
unfolding enter publish same equal find_key push_back
at_work-reached =
    next
      (next
        (next (next here (starts (start []) key 1 (state [] (running (1 ∷ []))) refl))
          (joins _ key 2 (state [] (running (1 ∷ 2 ∷ []))) refl))
        (resolves _ key 7 [] [] refl))
      (publishes _ key 7 7 (state ((key, 7) ∷ []) (running (1 ∷ 2 ∷ []))) [] [] refl refl)

at_rest-reached : Reach [] at_rest
unfolding wake same equal find_key erase_key send_each
at_rest-reached =
    next at_work-reached
      (wakes at_work key 7 ((1, 7) ∷ (2, 7) ∷ []) (state ((key, 7) ∷ []) []) [] [] refl refl)

single_flight_example :
    (flights key at_work.tasks ≤ 1)
    × (find_key key at_work.dns.resolve_running ≡ none ↔ flights key at_work.tasks ≡ 0)
single_flight_example = single_flight key at_work-reached

wake-defined_example : wake key 7 at_work.dns ≢ none
wake-defined_example = wake-defined key 7 [] [] at_work-reached refl

Reach-IsAccounted_example :
    count 2 at_work.entered
    ≡ waiting 2 at_work.dns.resolve_running + sent 2 at_work.mail + count 2 []
Reach-IsAccounted_example = Reach-IsAccounted 2 at_work-reached

Reach-quiet_example : count 2 at_rest.entered ≡ sent 2 at_rest.mail + count 2 []
Reach-quiet_example = Reach-quiet 2 at_rest-reached refl
