-- ===== src/Resolver/Mappings/Unused.antt =====
-- The host mappings of src/dns.cpp over the life of a resolver.
use hcpp.Common.{
  ◌∷◌, true, [], List, Option, none, some, Bytes, ◌≡◌, refl, sym, ap, ◌∙◌, equal_iff, Bool-cases,
  inl, inr,
}
use hcpp.Server.{InterceptSet}
use hcpp.Resolver.Mappings.{
  Texts, EdpCache, Mappings, HostMapping, DnsProvider, new_mappings, load_hm, load_dp,
  add_doh_filter, add_filters, save_hm, resolver_config_to,
}

module _ {T : Texts} where
  -- The resolver after a call, or with another cache.
  pub data Step : Mappings T → Mappings T → Type 0 where
    loads : (hm : List HostMapping) (d : Mappings T) → Step d (load_hm hm d).1
    provides : (dp : List DnsProvider) (d : Mappings T) → Step d (load_dp dp d)
    filters : (host : Bytes) (d : Mappings T) → Step d (add_doh_filter host d)
    configures :
        (services : List InterceptSet) (hm : List HostMapping) (dp : List DnsProvider)
        (d : Mappings T)
        → Step d (resolver_config_to services hm dp d).1
    saves : (hm out : List HostMapping) (d t : Mappings T) → save_hm hm d ≡ some (out, t) → Step d t
    resolves : (c : EdpCache T) (d : Mappings T) → Step d (record d { edp_cache = c })

  pub data Reach : Mappings T → Type 0 where
    start : Reach (new_mappings T)
    later : {d t : Mappings T} → Reach d → Step d t → Reach t

  load_hm-pathless :
      (hm : List HostMapping) (d : Mappings T) → d.dns_path ≡ [] → load_hm hm d ≡ (true, d)
  unfolding load_hm
  load_hm-pathless hm d e = let b = (equal_iff d.dns_path []).1 e in rw (load_hm, b) refl

  save_hm-pathless :
      (hm : List HostMapping) (d : Mappings T) → d.dns_path ≡ [] → save_hm hm d ≡ some (hm, d)
  unfolding save_hm
  save_hm-pathless hm d e = let b = (equal_iff d.dns_path []).1 e in rw (save_hm, b) refl

  -- Adding filters changes neither the path nor the cache.
  add_filters-keeps :
      (services : List InterceptSet) (d : Mappings T)
      → ((add_filters services d).dns_path ≡ d.dns_path)
        × ((add_filters services d).edp_cache ≡ d.edp_cache)
  unfolding add_filters add_doh_filter
  add_filters-keeps [] d = (refl, refl)
  add_filters-keeps (i ∷ is) d = elim (Bool-cases i.doh) [
    | inl e ↦ rw (add_filters, e) (add_filters-keeps is (add_doh_filter i.host d))
    | inr e ↦ rw (add_filters, e) (add_filters-keeps is d)
  ]

  configured :
      (services : List InterceptSet) (hm : List HostMapping) (dp : List DnsProvider)
      (d : Mappings T)
      → d.dns_path ≡ []
      → resolver_config_to services hm dp d ≡ (true, load_dp dp (add_filters services d))
  unfolding resolver_config_to
  configured services hm dp d e =
      rw (load_hm-pathless hm (add_filters services d) ((add_filters-keeps services d).0 ∙ e)) refl

  kept_by : (s : Option (List HostMapping × Mappings T)) → Mappings T → Mappings T
  kept_by none d = d
  kept_by (some x) d = x.1

  Step-pathless : {d t : Mappings T} → Step d t → d.dns_path ≡ [] → t.dns_path ≡ []
  unfolding load_dp add_doh_filter kept_by
  Step-pathless (loads hm d) e = ap (λ r. r.1.dns_path) (load_hm-pathless hm d e) ∙ e
  Step-pathless (provides dp d) e = e
  Step-pathless (filters host d) e = e
  Step-pathless (configures services hm dp d) e =
      ap (λ r. r.1.dns_path) (configured services hm dp d e) ∙ (add_filters-keeps services d).0 ∙ e
  Step-pathless (saves hm out d t s) e =
      ap (λ o. (kept_by o d).dns_path) (sym s ∙ save_hm-pathless hm d e) ∙ e
  Step-pathless (resolves c d) e = e

  Reach-pathless : {d : Mappings T} → Reach d → d.dns_path ≡ []
  unfolding new_mappings
  Reach-pathless start = refl
  Reach-pathless (later r p) = Step-pathless p (Reach-pathless r)

  -- In every state that a new resolver reaches by loading and saving host mappings, taking
  -- providers and filters, being configured, and any change of its cache, being configured does
  -- not throw, whatever the host mappings of the configuration, takes the providers, and leaves
  -- the cache as it is, and saving adds no mapping to the list.
  pub Reach-unused :
      {d : Mappings T} (services : List InterceptSet) (hm out : List HostMapping)
      (dp : List DnsProvider)
      → Reach d
      → ((resolver_config_to services hm dp d).0 ≡ true)
        × ((resolver_config_to services hm dp d).1.edp_cache ≡ d.edp_cache)
        × ((resolver_config_to services hm dp d).1.dns_providers ≡ dp)
        × (save_hm out d ≡ some (out, d))
  unfolding load_dp
  Reach-unused {d = d} services hm out dp r =
      let e = Reach-pathless r in
      let c = configured services hm dp d e in
      (
        ap (λ x. x.0) c,
        ap (λ x. x.1.edp_cache) c ∙ (add_filters-keeps services d).1,
        ap (λ x. x.1.dns_providers) c,
        save_hm-pathless out d e,
      )
