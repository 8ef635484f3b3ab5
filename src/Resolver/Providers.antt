-- ===== src/Resolver/Providers.antt =====
-- `resolve` in the unnamed namespace of src/dns.cpp: the answers of every provider over
-- `dnshttps::get_A`. The services of the system and the connections, with their handshake, are
-- parameters; the connections and the clock are numbered in the order in which they are used.
use hcpp.Common.{ℕ, suc, List, [], ◌∷◌, Option, none, some, Bytes}
use hcpp.Memory.{Memory}
use hcpp.Dns.Reply.{Answer}
use hcpp.Dns.Exchange.{Got, refused, replied, get_a}
use hcpp.Resolver.{HostEdp}
use hcpp.Resolver.Mappings.{Texts, Endpoint, DnsProvider, insert_host, endpoints}

-- A name that does not resolve, a connection that fails and a handshake that fails throw (`none`).
pub record Network (M : Memory) : Type 0 where
  pub service_ports : Bytes → Option (List ℕ)
  pub secure_memory : ℕ → Bytes → Option M.Mem
  pub clock : ℕ → ℕ

-- How a resolution ends: `running` when the fuel of a reply is used up.
pub data Resolved (A : Type 0) : Type 0 where
  running thrown : Resolved A
  resolved : A → Resolved A

-- `unordered_set::insert` of every answer; the set has no order that its callers know.
unfoldable pub insert_answers : List Answer → List Bytes → List Bytes
insert_answers [] ips = ips
insert_answers (a ∷ more) ips = insert_answers more (insert_host a.rdata ips)

module _ {M : Memory} where
  unfoldable pub answered_by : Got M → List Bytes → List Bytes
  answered_by (refused m) ips = ips
  answered_by (replied p m) ips = insert_answers p.answers ips

  -- What `get_A` returns is not looked at.
  unfoldable pub ask_providers :
      Network M → ℕ → ℕ → Bytes → List DnsProvider → List Bytes → Resolved (List Bytes)
  ask_providers w fuel k name [] ips = resolved ips
  ask_providers w fuel k name (p ∷ ps) ips = elim (w.secure_memory k p.host) [
    | none ↦ thrown
    | some m ↦ elim (get_a M fuel (w.clock k) p.host name m) [
      | none ↦ running
      | some g ↦ ask_providers w fuel (suc k) name ps (answered_by g ips)
    ]
  ]

module _ {T : Texts} where
  unfoldable pub endpoints_at : ℕ → Resolved (List Bytes) → Resolved (List (Endpoint T))
  endpoints_at svc running = running
  endpoints_at svc thrown = thrown
  endpoints_at svc (resolved ips) = elim (endpoints {T = T} svc ips) [
    | none ↦ thrown
    | some el ↦ resolved el
  ]

  unfoldable pub resolve_doh :
      {M : Memory} → Network M → ℕ → HostEdp → List DnsProvider → Resolved (List (Endpoint T))
  resolve_doh w fuel hedp ps = elim (w.service_ports hedp.1) [
    | none ↦ thrown
    | some ports ↦ elim ports [
      | [] ↦ thrown
      | svc ∷ more ↦ endpoints_at svc (ask_providers w fuel 0 hedp.0 ps [])
    ]
  ]
