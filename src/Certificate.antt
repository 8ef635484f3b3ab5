-- ===== src/Certificate.antt =====
-- src/certificate/cert.cpp: how a certificate is put together. OpenSSL is a parameter: its objects,
-- the calls that the source makes, and in `IsOpenssl` what they do, as changes of the fields of a
-- certificate. A pointer to a key may be null. Random bytes, the clock and the memory behind a
-- buffer are arguments.

pub mod Laws
pub mod Issue
pub mod Issued
use hcpp.Common.{
  ℕ, ◌+◌, ◌*◌, ◌%◌, Bool, true, false, ◌||◌, List, [], ◌∷◌, ◌++◌, Option, none, some, Bytes, ◌≡◌,
  if◌then◌else◌, ◌==◌, codes,
}
use hcpp.Http.Chunks.{c_string}

-- The object identifiers of `default_name_entries`.
pub data Nid : Type 0 where
  country_name organization_name organizational_unit_name : Nid
  state_or_province_name common_name locality_name : Nid

pub record NameEntry : Type 0 where
  pub nid : Nid
  pub nid_val : Bytes

abbrev pub default_name_entries : List NameEntry
default_name_entries =
    record { nid = country_name; nid_val = codes "CN" }
    ∷ record { nid = organization_name; nid_val = codes "NoBody" }
    ∷ record { nid = organizational_unit_name; nid_val = codes "JS" }
    ∷ record { nid = state_or_province_name; nid_val = codes "JS" }
    ∷ record { nid = common_name; nid_val = codes "SQ" }
    ∷ record { nid = locality_name; nid_val = codes "SQ" }
    ∷ []

-- The extensions that are added, by their object identifiers.
pub data Extension : Type 0 where
  basic_constraints : Bytes → Extension
  key_usage subject_key_identifier authority_key_identifier : Bytes → Extension
  subject_alt_name : List Bytes → Extension

unfoldable pub nid_of : Extension → ℕ
nid_of (basic_constraints b) = 0
nid_of (key_usage b) = 1
nid_of (subject_key_identifier b) = 2
nid_of (authority_key_identifier b) = 3
nid_of (subject_alt_name names) = 4

-- `X509V3_ADD_DEFAULT`: an extension that is there makes the call fail.
unfoldable pub has_nid : ℕ → List (Extension × Bool) → Bool
has_nid n [] = false
has_nid n (x ∷ xs) = n == nid_of x.0 || has_nid n xs

unfoldable pub add_default : Extension → Bool → List (Extension × Bool) → List (Extension × Bool)
add_default e critical xs = if has_nid (nid_of e) xs then xs else xs ++ ((e, critical) ∷ [])

-- What a certificate says; times are seconds.
pub record Fields (Public : Type 0) : Type 0 where
  pub version : ℕ
  pub serial : ℕ
  pub issuer : List NameEntry
  pub subject : List NameEntry
  pub not_before : ℕ
  pub not_after : ℕ
  pub pubkey : Option Public
  pub extensions : List (Extension × Bool)

pub record Openssl : Type 1 where
  pub X509 : Type 0
  pub Pkey : Type 0
  pub Public : Type 0
  pub Context : Type 0
  pub fields : X509 → Fields Public
  pub verifies : X509 → Public → Bool
  pub public_of : Pkey → Public
  pub ctx_new_id : ℕ → Option Context
  pub keygen_init : Context → Option Context
  pub set_rsa_keygen_bits : ℕ → Context → Option Context
  pub keygen : Context → Option Pkey
  pub x509_new : X509
  pub x509_set_version : ℕ → X509 → X509
  pub x509_set_serial : ℕ → X509 → X509
  pub x509_set_issuer : List NameEntry → X509 → X509
  pub x509_set_subject : List NameEntry → X509 → X509
  pub x509_set_not_before : ℕ → X509 → X509
  pub x509_set_not_after : ℕ → X509 → X509
  pub x509_set_pubkey : Option Pkey → X509 → X509
  pub x509_add1_ext : Extension → Bool → X509 → X509
  pub x509_add_ext : Extension → Bool → X509 → X509
  pub x509_pubkey_digest : X509 → Bytes
  pub x509_sign : Option Pkey → X509 → X509
  pub pem_write_x509 : X509 → Bytes
  pub pem_write_private_key : Option Pkey → Bytes
  pub pem_read_x509 : Bytes → Option X509
  pub pem_read_private_key : Bytes → Option Pkey

pub record SubjectIdentify : Type 0 where
  pub pkey_pem : Bytes
  pub cert_pem : Bytes

-- `BN_bin2bn`
unfoldable pub bin2bn : ℕ → Bytes → ℕ
bin2bn acc [] = acc
bin2bn acc (b ∷ bs) = bin2bn (acc * 256 + b) bs

-- `buff[0] &= 0x7f`
unfoldable pub positive : Bytes → Bytes
positive [] = []
positive (b ∷ bs) = b % 128 ∷ bs

module _ (o : Openssl) where
  open o use {
    X509, Pkey, Context, fields, ctx_new_id, keygen_init, set_rsa_keygen_bits, keygen,
    x509_set_version, x509_set_serial, x509_set_issuer, x509_set_subject, x509_set_not_before,
    x509_set_not_after, x509_set_pubkey, x509_add1_ext, x509_add_ext, x509_pubkey_digest, x509_sign,
    pem_write_x509, pem_write_private_key,
  }

  -- A failure gives a null pointer.
  unfoldable pub generate_pkey : ℕ → Option Pkey
  generate_pkey seed = elim (ctx_new_id seed) [
    | none ↦ none
    | some c ↦ elim (keygen_init c) [
      | none ↦ none
      | some c1 ↦ elim (set_rsa_keygen_bits 2048 c1) [ none ↦ none | some c2 ↦ keygen c2 ]
    ]
  ]

  unfoldable pub set_version : X509 → X509
  set_version cert = x509_set_version 2 cert

  unfoldable pub set_serial_number : Bytes → X509 → X509
  set_serial_number buff cert = x509_set_serial (bin2bn 0 (positive buff)) cert

  unfoldable pub set_issuer : List NameEntry → X509 → X509
  set_issuer ne cert = x509_set_issuer ne cert

  unfoldable pub set_validity : ℕ → ℕ → X509 → X509
  set_validity now days cert =
      x509_set_not_after (now + days * 86400) (x509_set_not_before now cert)

  unfoldable pub set_subject : List NameEntry → X509 → X509
  set_subject ne cert = x509_set_subject ne cert

  unfoldable pub set_pubkey : Option Pkey → X509 → X509
  set_pubkey pkey cert = x509_set_pubkey pkey cert

  -- `KU_KEY_CERT_SIGN | KU_CRL_SIGN`, critical.
  unfoldable pub add_ca_key_usage : X509 → X509
  add_ca_key_usage cert = x509_add1_ext (key_usage (6 ∷ [])) true cert

  -- Of the key that the certificate has by then.
  unfoldable pub generate_key_id : X509 → Bytes
  generate_key_id cert = x509_pubkey_digest cert

  unfoldable pub add_ski : X509 → X509
  add_ski cert = x509_add1_ext (subject_key_identifier (generate_key_id cert)) false cert

  unfoldable pub add_aki : X509 → X509
  add_aki cert = x509_add1_ext (authority_key_identifier (generate_key_id cert)) false cert

  unfoldable pub add_dns_san : List Bytes → X509 → X509
  add_dns_san [] cert = cert
  add_dns_san (n ∷ ns) cert = x509_add1_ext (subject_alt_name (n ∷ ns)) false cert

  unfoldable pub add_ca_bs : X509 → X509
  add_ca_bs cert = x509_add_ext (basic_constraints (codes "CA:true")) true cert

  unfoldable pub add_issuer : X509 → X509 → X509
  add_issuer ca_cert cert = x509_set_issuer (fields ca_cert).subject cert

  unfoldable pub sign : Option Pkey → X509 → X509
  sign pkey cert = x509_sign pkey cert

  -- The buffer is not ended by a 0: the text goes on in the memory behind it up to one.
  unfoldable pub make_pem_cert : Bytes → X509 → Bytes
  make_pem_cert behind cert = c_string (pem_write_x509 cert ++ behind)

  -- The text is one byte longer than what is read into it.
  unfoldable pub make_pem_key : Option Pkey → Bytes
  make_pem_key pkey = pem_write_private_key pkey ++ (0 ∷ [])
