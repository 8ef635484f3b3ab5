-- ===== src/Resolver.antt =====
-- `slow_dns::slow_dns_imp` of src/dns.cpp: the cache of resolved services, and the table of the
-- resolutions that run, with the channels that wait for them. What stands under one lock is one
-- function. The result of a resolution, a list of endpoints, is a parameter, and a channel is a
-- number. The lock-free parts between the functions are the steps of Resolver/Flights.
pub mod Flights
pub mod Single
pub mod Waiters
pub mod Cache
pub mod Mappings
pub mod Providers
pub mod Connect
use hcpp.Common.{
  ℕ, Bool, true, false, ◌&&◌, List, [], ◌∷◌, ◌++◌, Option, none, some, Bytes, equal, if◌then◌else◌,
  map,
}

-- `host_edp`: host and service.
abbrev pub HostEdp : Type 0
HostEdp = Bytes × Bytes

-- `==` of two keys.
unfoldable pub same : HostEdp → HostEdp → Bool
same h k = equal h.0 k.0 && equal h.1 k.1

-- The maps of the source, as lists of entries with different keys.
module _ {A : Type 0} where
  unfoldable pub find_key : HostEdp → List (HostEdp × A) → Option A
  find_key h [] = none
  find_key h (x ∷ xs) = let later = find_key h xs in if same h x.0 then some x.1 else later

  unfoldable pub erase_key : HostEdp → List (HostEdp × A) → List (HostEdp × A)
  erase_key h [] = []
  erase_key h (x ∷ xs) = let rest = erase_key h xs in if same h x.0 then rest else x ∷ rest

-- `querying->second.push_back(cc)`
unfoldable pub push_back : HostEdp → ℕ → List (HostEdp × List ℕ) → List (HostEdp × List ℕ)
push_back h c [] = []
push_back h c (x ∷ xs) =
    let rest = push_back h c xs in if same h x.0 then (x.0, x.1 ++ c ∷ []) ∷ xs else x ∷ rest

module _ (Edps : Type 0) where
  pub record SlowDns : Type 0 where
    pub edp_cache : List (HostEdp × Edps)
    pub resolve_running : List (HostEdp × List ℕ)

module _ {Edps : Type 0} where
  -- The look into the cache with which `resolve` begins.
  unfoldable pub cached : HostEdp → SlowDns Edps → Option Edps
  cached h s = find_key h s.edp_cache

  -- The channel joins the resolution that runs, or starts one; the flag is `need_resolve`.
  unfoldable pub enter : HostEdp → ℕ → SlowDns Edps → Bool × SlowDns Edps
  enter h c s = elim (find_key h s.resolve_running) [
    | some cs ↦ (false, record s { resolve_running = push_back h c s.resolve_running })
    | none ↦ (true, record s { resolve_running = (h, c ∷ []) ∷ s.resolve_running })
  ]

  -- The handler of a resolution that has thrown.
  unfoldable pub give_up : HostEdp → SlowDns Edps → SlowDns Edps
  give_up h s = record s { resolve_running = erase_key h s.resolve_running }

  -- The result goes into the cache, where an entry that is there stays and becomes the result.
  unfoldable pub publish : HostEdp → Edps → SlowDns Edps → Edps × SlowDns Edps
  publish h el s = elim (find_key h s.edp_cache) [
    | some old ↦ (old, s)
    | none ↦ (el, record s { edp_cache = (h, el) ∷ s.edp_cache })
  ]

  unfoldable pub send_each : Edps → List ℕ → List (ℕ × Edps)
  send_each el [] = []
  send_each el (c ∷ cs) = (c, el) ∷ send_each el cs

  -- Every channel that waits is sent the result. `none` stands for the use of the end iterator,
  -- which is undefined.
  unfoldable pub wake : HostEdp → Edps → SlowDns Edps → Option (List (ℕ × Edps) × SlowDns Edps)
  wake h el s = elim (find_key h s.resolve_running) [
    | none ↦ none
    | some cs ↦ some (send_each el cs, record s { resolve_running = erase_key h s.resolve_running })
  ]

  unfoldable pub remove : HostEdp → SlowDns Edps → SlowDns Edps
  remove h s = record s { edp_cache = erase_key h s.edp_cache }
