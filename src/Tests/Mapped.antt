-- ===== src/Tests/Mapped.antt =====
-- A resolver is configured, and it resolves a name.
use hcpp.Common.{true, [], ◌∷◌, some, Bytes, codes, ◌≡◌}
use hcpp.Config.{pos}
use hcpp.Server.{default_set}
use hcpp.Resolver.Mappings.{
  Texts, EdpCache, Mappings, DnsProvider, new_mappings, new_mapping, save_hm, resolver_config_to,
}
use hcpp.Resolver.Mappings.Unused.{Reach, start, later, configures, resolves, Reach-unused}

abbrev plain : Texts
plain = record {
  Address = Bytes;
  make_address = λ t. some t;
  address_text = λ a. a;
  stoi = λ t. some (pos 80);
}

abbrev resolved : EdpCache plain
resolved = ((codes "a.org", codes "80"), record { address = codes "1.2.3.4"; port = 80 } ∷ []) ∷ []

abbrev provider : DnsProvider
provider = record { provider = codes "p"; host = codes "1.1.1.1" }

abbrev configured : Mappings plain
configured = (resolver_config_to [] (new_mapping ∷ []) (provider ∷ []) (new_mappings plain)).1

abbrev used : Mappings plain
used = record configured { edp_cache = resolved }

used-Reach : Reach used
used-Reach =
    later (later start (configures [] (new_mapping ∷ []) (provider ∷ []) (new_mappings plain)))
      (resolves resolved configured)

Reach-unused_example :
    ((resolver_config_to (default_set ∷ []) (new_mapping ∷ []) [] used).0 ≡ true)
    × ((resolver_config_to (default_set ∷ []) (new_mapping ∷ []) [] used).1.edp_cache ≡ resolved)
    × ((resolver_config_to (default_set ∷ []) (new_mapping ∷ []) [] used).1.dns_providers ≡ [])
    × (save_hm [] used ≡ some ([], used))
Reach-unused_example = Reach-unused (default_set ∷ []) (new_mapping ∷ []) [] [] used-Reach
