-- ===== src/Program/Saved.antt =====
-- What the destructor of `config` in src/config.cpp saves.
use hcpp.Common.{List, [], ◌∷◌, none, Bytes, ◌≡◌, refl, ap, ◌∙◌}
use hcpp.Config.Authority.{Files}
use hcpp.Resolver.Mappings.{HostMapping}
use hcpp.Program.{Config, Json, new_struct, run_callbacks, save_config, write_mappings}

-- The path is private, and no public member of `config` changes it.
abbrev pub KeepPath : List (Config → Config) → Type 0
KeepPath [] = Unit {0}
KeepPath (i ∷ is) =
    ((c : Config) → (i c).cs.host_mapping_path ≡ c.cs.host_mapping_path) × KeepPath is

module _ {F : Files} (json : Json F) where
  run_callbacks-path :
      (is : List (Config → Config)) (c : Config)
      → KeepPath is
      → (run_callbacks json is c).cs.host_mapping_path ≡ c.cs.host_mapping_path
  unfolding run_callbacks
  run_callbacks-path [] c k = refl
  run_callbacks-path (i ∷ is) c (k, ks) = run_callbacks-path is (i c) ks ∙ k c

  written :
      (hm : List HostMapping) (path : Bytes) (f : F.Disk)
      → ((text : Bytes) → F.write path text f ≡ none)
      → write_mappings json path hm f ≡ f
  unfolding write_mappings
  written [] path f shut = refl
  written (m ∷ ms) path f shut = rw (write_mappings, shut (json.json_of (m ∷ ms))) refl

  -- If no callback changes the path of the host mappings and a file without a name cannot be
  -- opened, the end of a configuration writes nothing, whatever the configuration and the mappings
  -- of the callbacks are.
  pub save_config-nothing :
      (is : List (Config → Config)) (old : Config) (f : F.Disk)
      → KeepPath is
      → ((text : Bytes) → F.write [] text f ≡ none)
      → save_config json is old f ≡ f
  unfolding save_config new_struct
  save_config-nothing is old f k shut =
      let c : Config = record { cs = new_struct; hm = [] } in
      let done = run_callbacks json is c in
      ap (λ p. write_mappings json p done.hm f) (run_callbacks-path is c k)
      ∙ written done.hm [] f shut
