-- ===== src/Program.antt =====
-- The class `config` of src/config.cpp as an object that is loaded, handed on and saved, and in
-- Program/Start the `main` of main.cpp. What the JSON library makes of a file is a parameter.
pub mod Saved
pub mod Start
pub mod Accept
use hcpp.Common.{
  List, [], ◌∷◌, ◌++◌, true, false, Option, none, some, Bytes, codes, equal, if◌then◌else◌,
}
use hcpp.Server.{InterceptSet}
use hcpp.Config.{ℤ, pos}
use hcpp.Config.Authority.{Files}
use hcpp.Resolver.Mappings.{HostMapping, DnsProvider}

pub record ConfigStruct : Type 0 where
  pub port : ℤ
  pub ca_cert_path : Bytes
  pub ca_pkey_path : Bytes
  pub host_mapping_path : Bytes
  pub proxy_service_path : Bytes
  pub proxy_service : List InterceptSet
  pub dns_provider : List DnsProvider

-- The fields of a new `config_struct`.
unfoldable pub new_struct : ConfigStruct
new_struct = record {
  port = pos 55555;
  ca_cert_path = [];
  ca_pkey_path = [];
  host_mapping_path = [];
  proxy_service_path = [];
  proxy_service = [];
  dns_provider =
      record { provider = codes "1.1.1.1"; host = codes "1.1.1.1" }
      ∷ record { provider = codes "ali"; host = codes "dns.alidns.com" }
      ∷ [];
}

pub record Config : Type 0 where
  pub cs : ConfigStruct
  pub hm : List HostMapping

-- A file that is not parsed, or that has not the fields wanted, gives `none`: an exception. The
-- first leaves what is absent as it is.
pub record Json (F : Files) : Type 0 where
  pub read_struct : Bytes → F.Disk → ConfigStruct → Option ConfigStruct
  pub read_mappings : Bytes → F.Disk → Option (List HostMapping)
  pub read_services : Bytes → F.Disk → Option (List InterceptSet)
  pub json_of : List HostMapping → Bytes

module _ {F : Files} (json : Json F) where
  open json use {read_struct, read_mappings, read_services, json_of}

  unfoldable pub load_mappings : ConfigStruct → F.Disk → Option (List HostMapping)
  load_mappings cs f =
      if equal cs.host_mapping_path [] then some [] else read_mappings cs.host_mapping_path f

  -- The services of the file come behind those of the configuration.
  unfoldable pub load_services : ConfigStruct → F.Disk → Option (List InterceptSet)
  load_services cs f =
      if equal cs.proxy_service_path []
      then some cs.proxy_service
      else elim (read_services cs.proxy_service_path f) [
        | none ↦ none
        | some ps ↦ some (cs.proxy_service ++ ps)
      ]

  -- The constructor; without a file the configuration is the default one.
  unfoldable pub load_config : Bytes → F.Disk → Option Config
  load_config config_path f =
      if F.exists config_path f
      then elim (read_struct config_path f new_struct) [
        | none ↦ none
        | some cs ↦ elim (load_mappings cs f) [
          | none ↦ none
          | some hm ↦ elim (load_services cs f) [
            | none ↦ none
            | some services ↦ some (record { cs = record cs { proxy_service = services }; hm = hm })
          ]
        ]
      ]
      else some (record { cs = new_struct; hm = [] })

  unfoldable pub run_callbacks : List (Config → Config) → Config → Config
  run_callbacks [] c = c
  run_callbacks (i ∷ is) c = run_callbacks is (i c)

  -- What there is goes into the file; a file that cannot be opened is left.
  unfoldable pub write_mappings : Bytes → List HostMapping → F.Disk → F.Disk
  write_mappings path [] f = f
  write_mappings path (m ∷ ms) f = elim (F.write path (json_of (m ∷ ms)) f) [
    | none ↦ f
    | some g ↦ g
  ]

  -- The destructor: everything is reset before the callbacks run.
  unfoldable pub save_config : List (Config → Config) → Config → F.Disk → F.Disk
  save_config save_callback old f =
      let c = run_callbacks save_callback (record { cs = new_struct; hm = [] }) in
      write_mappings c.cs.host_mapping_path c.hm f
