-- ===== src/Resolver/Mappings.antt =====
-- The host mappings of the resolver, and the services that it asks a provider for: `load_hm`,
-- `load_dp`, `add_doh_filter` and `save_hm` of src/dns.cpp, and `config::config_to` of
-- src/config.cpp for the resolver. Addresses as texts, and `std::stoi`, are parameters.

pub mod Unused
use hcpp.Common.{
  ℕ, Bool, true, false, List, [], ◌∷◌, ◌++◌, Option, none, some, Bytes, map, equal, codes,
  to_string, if◌then◌else◌,
}
use hcpp.Server.{InterceptSet}
use hcpp.Config.{ℤ, get_port}
use hcpp.Resolver.{HostEdp, find_key}

-- What throws or is undefined gives `none`.
infixl 1 ◌>>=◌
abbrev pub ◌>>=◌ : {A B : Type 0} → Option A → (A → Option B) → Option B
none >>= f = none
some x >>= f = f x

pub record HostMapping : Type 0 where
  pub host : Bytes
  pub port : Bytes
  pub ips : List Bytes

-- The fields of a new `host_mapping`.
unfoldable pub new_mapping : HostMapping
new_mapping = record { host = codes "localhost"; port = codes "8080"; ips = codes "127.0.0.1" ∷ [] }

pub record DnsProvider : Type 0 where
  pub provider : Bytes
  pub host : Bytes

-- `make_address` and `std::stoi` throw (`none`).
pub record Texts : Type 1 where
  pub Address : Type 0
  pub make_address : Bytes → Option Address
  pub address_text : Address → Bytes
  pub stoi : Bytes → Option ℤ

-- `std::set::insert`
unfoldable pub insert_host : Bytes → List Bytes → List Bytes
insert_host h [] = h ∷ []
insert_host h (x ∷ xs) = let rest = insert_host h xs in if equal h x then x ∷ xs else x ∷ rest

module _ (T : Texts) where
  pub record Endpoint : Type 0 where
    pub address : T.Address
    pub port : ℕ

  abbrev pub EdpCache : Type 0
  EdpCache = List (HostEdp × List Endpoint)

  -- The fields of `slow_dns_imp` that these functions use.
  pub record Mappings : Type 0 where
    pub dns_providers : List DnsProvider
    pub doh_filter : List Bytes
    pub edp_cache : EdpCache
    pub has_init : Bool
    pub has_save : Bool
    pub dns_path : Bytes

  -- A new resolver; nothing in the program sets the path.
  unfoldable pub new_mappings : Mappings
  new_mappings = record {
    dns_providers = [];
    doh_filter = [];
    edp_cache = [];
    has_init = false;
    has_save = false;
    dns_path = [];
  }

module _ {T : Texts} where
  -- `std::inserter` of a map: an entry that is there stays.
  unfoldable pub insert_key : HostEdp → List (Endpoint T) → EdpCache T → EdpCache T
  insert_key k v c = elim (find_key k c) [ some old ↦ c | none ↦ (k, v) ∷ c ]

  unfoldable pub endpoints : ℕ → List Bytes → Option (List (Endpoint T))
  endpoints port [] = some []
  endpoints port (i ∷ is) = do
    a ← T.make_address i
    rest ← endpoints port is
    some (record { address = a; port = port } ∷ rest)

  -- `tf`
  unfoldable pub entry_of : HostMapping → Option (HostEdp × List (Endpoint T))
  entry_of m = do n ← T.stoi m.port; v ← endpoints (get_port n) m.ips; some ((m.host, m.port), v)

  -- The flag is false when an entry throws; those before it are in the map.
  unfoldable pub load_each : List HostMapping → EdpCache T → Bool × EdpCache T
  load_each [] c = (true, c)
  load_each (m ∷ ms) c = elim (entry_of m) [
    | none ↦ (false, c)
    | some (k, v) ↦ load_each ms (insert_key k v c)
  ]

  -- The flag says that it returns.
  unfoldable pub load_hm : List HostMapping → Mappings T → Bool × Mappings T
  load_hm hm d =
      if equal d.dns_path []
      then (true, d)
      else if d.has_init
      then (true, d)
      else (let (returns, c) = load_each hm d.edp_cache in
          (returns, record d { edp_cache = c; has_init = if returns then true else d.has_init }))

  unfoldable pub load_dp : List DnsProvider → Mappings T → Mappings T
  load_dp dp d = record d { dns_providers = dp }

  unfoldable pub add_doh_filter : Bytes → Mappings T → Mappings T
  add_doh_filter host d = record d { doh_filter = insert_host host d.doh_filter }

  -- The addresses go behind those of a new mapping, so there always is one, and the first endpoint
  -- is read: `none` stands for the read when there is none, which is undefined.
  unfoldable pub mapping_of : HostEdp × List (Endpoint T) → Option HostMapping
  mapping_of (k, []) = none
  mapping_of (k, e ∷ es) = some (record {
    host = k.0;
    port = to_string e.port;
    ips = new_mapping.ips ++ map (λ x. T.address_text x.address) (e ∷ es);
  })

  unfoldable pub save_each : EdpCache T → Option (List HostMapping)
  save_each [] = some []
  save_each (x ∷ xs) = do m ← mapping_of x; ms ← save_each xs; some (m ∷ ms)

  unfoldable pub save_hm : List HostMapping → Mappings T → Option (List HostMapping × Mappings T)
  save_hm hm d =
      if equal d.dns_path []
      then some (hm, d)
      else if d.has_save
      then some (hm, d)
      else (do ms ← save_each d.edp_cache; some (hm ++ ms, record d { has_save = true }))

  unfoldable pub add_filters : List InterceptSet → Mappings T → Mappings T
  add_filters [] d = d
  add_filters (i ∷ is) d = add_filters is (if i.doh then add_doh_filter i.host d else d)

  -- `config_to`; a mapping that throws leaves the providers as they are.
  unfoldable pub resolver_config_to :
      List InterceptSet → List HostMapping → List DnsProvider → Mappings T → Bool × Mappings T
  resolver_config_to services hm dp d =
      let (returns, d1) = load_hm hm (add_filters services d) in
      (returns, if returns then load_dp dp d1 else d1)
