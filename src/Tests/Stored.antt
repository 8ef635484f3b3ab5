-- ===== src/Tests/Stored.antt =====
-- A disk as a list of files: the certificate of the proxy is made and loaded, and the configuration
-- is saved.
use hcpp.Common.{
  Bool, true, false, List, [], ◌∷◌, Option, none, some, Bytes, codes, equal, equal_self, ◌≡◌, refl,
  sym, ap, ◌∙◌, arith, subst, starts_with,
}
use hcpp.Server.{find_entry}
use hcpp.Certificate.Issue.{make_ca}
use hcpp.Config.{replace_path}
use hcpp.Config.Authority.{Files, ended, ca_config_to, save_ca}
use hcpp.Config.Authority.Again.{AreFiles, ca_config_to-again}
use hcpp.Resolver.Mappings.{new_mapping}
use hcpp.Program.{Config, Json, new_struct, save_config}
use hcpp.Program.Saved.{save_config-nothing}
use hcpp.Tests.Certificates.{toy, draws}

abbrev Disk : Type 0
Disk = List (Bytes × Bytes)

abbrev present : Option Bytes → Bool
present none = false
present (some c) = true

-- A file without a name cannot be opened.
abbrev put : Bytes → Bytes → Disk → Option Disk
put [] c s = none
put (b ∷ p) c s = some ((b ∷ p, c) ∷ s)

abbrev disk : Files
disk = record {
  Disk = Disk;
  exists = λ p s. present (find_entry p s);
  contents = λ p s. find_entry p s;
  write = put;
  create_directories = λ p s. some s;
  parent_path = λ p. p;
}

value_or : Disk → Option Disk → Disk
value_or s none = s
value_or s (some t) = t

some_disk : (s t : Disk) → some s ≡ some t → s ≡ t
unfolding value_or
some_disk s t e = ap (value_or s) e

put-found : (p c : Bytes) (s t : Disk) → put p c s ≡ some t → find_entry p t ≡ some c
unfolding find_entry
put-found [] c s t e = ground (arith, e)
put-found (b ∷ p) c s t e =
    subst (λ u. find_entry (b ∷ p) u ≡ some c) (some_disk _ t e)
      (rw (find_entry, equal_self (b ∷ p)) refl)

put-other :
    (p q c : Bytes) (s t : Disk)
    → put p c s ≡ some t
    → equal q p ≡ false
    → find_entry q t ≡ find_entry q s
unfolding find_entry
put-other [] q c s t e apart = ground (arith, e)
put-other (b ∷ p) q c s t e apart =
    subst (λ u. find_entry q u ≡ find_entry q s) (some_disk _ t e) (rw (find_entry, apart) refl)

disk-AreFiles : AreFiles disk
disk-AreFiles = record {
  write_contents = put-found;
  write_exists = λ p c s t e. ap present (put-found p c s t e);
  write_other =
      λ p q c s t e apart. let same = put-other p q c s t e apart in (same, ap present same);
  directories_keep = λ p q s t e.
      let same = ap (find_entry q) (sym (some_disk s t e)) in
      (same, λ there. ap present same ∙ there);
}

abbrev pkey_path : Bytes
pkey_path = codes "~/ca.key"

abbrev cert_path : Bytes
cert_path = codes "~/ca.crt"

abbrev home : Bytes
home = codes "/home/u"

abbrev filled : Disk
filled =
    (codes "/home/u/ca.crt", (make_ca toy (draws 4)).cert_pem)
    ∷ (codes "/home/u/ca.key", (make_ca toy (draws 4)).pkey_pem)
    ∷ []

first_run :
    ca_config_to disk toy (draws 4) (some home) pkey_path cert_path []
    ≡ ended true (some (make_ca toy (draws 4))) filled
unfolding ca_config_to save_ca replace_path find_entry equal starts_with
first_run = refl

ca_config_to-again_example :
    ca_config_to disk toy (draws 9) (some home) pkey_path cert_path filled
    ≡ ended true (some (make_ca toy (draws 4))) filled
unfolding replace_path equal starts_with
ca_config_to-again_example =
    ca_config_to-again disk-AreFiles toy (draws 4) (draws 9) (some home) pkey_path cert_path []
      filled (some (make_ca toy (draws 4))) refl first_run

abbrev json : Json disk
json = record {
  read_struct = λ p s c. some c;
  read_mappings = λ p s. some [];
  read_services = λ p s. some [];
  json_of = λ hm. codes "[]";
}

abbrev add_mapping : Config → Config
add_mapping c = record c { hm = new_mapping ∷ c.hm }

abbrev before : Config
before = record { cs = record new_struct { host_mapping_path = codes "hm.json" }; hm = [] }

save_config-nothing_example : save_config json (add_mapping ∷ []) before filled ≡ filled
save_config-nothing_example =
    save_config-nothing json (add_mapping ∷ []) before filled (λ c. refl, tt) (λ text. refl)
