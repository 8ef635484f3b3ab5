-- ===== src/Tests/Fields.antt =====
-- The fields of a certificate as numbers.
use hcpp.Common.{
  ℕ, zero, suc, Bool, true, false, List, [], Option, none, some, Bytes, ◌≡◌, refl, if◌then◌else◌,
  ◌==◌,
}
use hcpp.Certificate.{
  Nid, country_name, organization_name, organizational_unit_name, state_or_province_name,
  common_name, locality_name, NameEntry, Extension, basic_constraints, key_usage,
  subject_key_identifier, authority_key_identifier, subject_alt_name,
}
use hcpp.Tests.Codec.{Codec, nat_codec, via, pair, list}

abbrev nid_to : Nid → ℕ
nid_to country_name = 0
nid_to organization_name = 1
nid_to organizational_unit_name = 2
nid_to state_or_province_name = 3
nid_to common_name = 4
nid_to locality_name = 5

abbrev nid_from : ℕ → Nid
nid_from n =
    if n == 0
    then country_name
    else if n == 1
    then organization_name
    else if n == 2
    then organizational_unit_name
    else if n == 3
    then state_or_province_name
    else if n == 4
    then common_name
    else locality_name

pub nid_back : (n : Nid) → nid_from (nid_to n) ≡ n
nid_back country_name = refl
nid_back organization_name = refl
nid_back organizational_unit_name = refl
nid_back state_or_province_name = refl
nid_back common_name = refl
nid_back locality_name = refl

abbrev bytes : Codec Bytes
bytes = list nat_codec

abbrev pub name_entry : Codec NameEntry
name_entry =
    via (pair (via nat_codec nid_to nid_from nid_back) bytes) (λ e. (e.nid, e.nid_val))
      (λ p. record { nid = p.0; nid_val = p.1 }) (λ e. refl)

abbrev flag_to : Bool → ℕ
flag_to false = 0
flag_to true = 1

abbrev flag_from : ℕ → Bool
flag_from n = if n == 0 then false else true

pub flag_back : (b : Bool) → flag_from (flag_to b) ≡ b
flag_back false = refl
flag_back true = refl

abbrev ext_to : Extension → ℕ × Bytes × List Bytes
ext_to (basic_constraints b) = (0, b, [])
ext_to (key_usage b) = (1, b, [])
ext_to (subject_key_identifier b) = (2, b, [])
ext_to (authority_key_identifier b) = (3, b, [])
ext_to (subject_alt_name names) = (4, [], names)

abbrev ext_from : ℕ × Bytes × List Bytes → Extension
ext_from (n, b, names) =
    if n == 0
    then basic_constraints b
    else if n == 1
    then key_usage b
    else if n == 2
    then subject_key_identifier b
    else if n == 3
    then authority_key_identifier b
    else subject_alt_name names

pub ext_back : (e : Extension) → ext_from (ext_to e) ≡ e
ext_back (basic_constraints b) = refl
ext_back (key_usage b) = refl
ext_back (subject_key_identifier b) = refl
ext_back (authority_key_identifier b) = refl
ext_back (subject_alt_name names) = refl

abbrev pub extension : Codec (Extension × Bool)
extension =
    pair
      (via (pair nat_codec (pair bytes (list bytes))) (λ e. let (n, b, l) = ext_to e in (n, (b, l)))
        (λ p. ext_from (p.0, p.1.0, p.1.1)) ext_back)
      (via nat_codec flag_to flag_from flag_back)

abbrev pub key_to : Option ℕ → ℕ
key_to none = 0
key_to (some k) = suc k

abbrev key_from : ℕ → Option ℕ
key_from zero = none
key_from (suc k) = some k

pub key_back : (k : Option ℕ) → key_from (key_to k) ≡ k
key_back none = refl
key_back (some k) = refl

abbrev pub key : Codec (Option ℕ)
key = via nat_codec key_to key_from key_back
