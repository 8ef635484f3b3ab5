-- ===== src/Certificate/Issue.antt =====
-- The two certificates of the proxy: its own, which `config::config_to` of src/config.cpp makes, and
-- that of a server in whose place it stands, which `mitm_svc::make_fake_server_id` of
-- src/https/mitm_svc.cpp makes.
use hcpp.Common.{ℕ, List, Option, none, some, Bytes}
use hcpp.Certificate.{
  Openssl, SubjectIdentify, default_name_entries, generate_pkey, set_version, set_serial_number,
  set_issuer, set_validity, set_subject, set_pubkey, add_ca_key_usage, add_ski, add_aki,
  add_dns_san, add_ca_bs, add_issuer, sign, make_pem_cert, make_pem_key,
}

-- What a run takes from outside: random bytes, a seed for the key, the clock, and the memory behind
-- the buffer of the certificate's text.
pub record Draws : Type 0 where
  pub serial : Bytes
  pub seed : ℕ
  pub now : ℕ
  pub behind : Bytes

module _ (o : Openssl) where
  open o use {X509, Pkey, x509_new, pem_read_private_key, pem_read_x509}

  unfoldable pub ca_certificate : Draws → Option Pkey → X509
  ca_certificate d pkey =
      let named = set_subject o default_name_entries (
        set_issuer o default_name_entries
          (set_validity o d.now 3650 (set_serial_number o d.serial (set_version o x509_new)))) in
      let extended = add_ca_key_usage o (add_ski o (add_aki o (add_ca_bs o named))) in
      sign o pkey (set_pubkey o pkey extended)

  unfoldable pub make_ca : Draws → SubjectIdentify
  make_ca d = record {
    pkey_pem = make_pem_key o (generate_pkey o d.seed);
    cert_pem = make_pem_cert o d.behind (ca_certificate d (generate_pkey o d.seed));
  }

  unfoldable pub fake_certificate : Draws → List Bytes → X509 → Pkey → Option Pkey → X509
  fake_certificate d dns_name ca_cert ca_pky pky =
      let named =
        set_subject o default_name_entries
          (set_validity o d.now 3650 (set_serial_number o d.serial (set_version o x509_new))) in
      let extended = add_ski o (add_aki o (add_dns_san o dns_name named)) in
      sign o (some ca_pky) (add_issuer o ca_cert (set_pubkey o pky extended))

  -- A text that is not read throws (`none`).
  abbrev pub make_x509 : Bytes → Option X509
  make_x509 cert = pem_read_x509 cert

  abbrev pub make_pkey : Bytes → Option Pkey
  make_pkey pkey = pem_read_private_key pkey

  unfoldable pub make_fake_server_id : Draws → List Bytes → SubjectIdentify → Option SubjectIdentify
  make_fake_server_id d dns_name ca_si = elim (make_pkey ca_si.pkey_pem) [
    | none ↦ none
    | some ca_pky ↦ elim (make_x509 ca_si.cert_pem) [
      | none ↦ none
      | some ca_cert ↦
          let pky = generate_pkey o d.seed in
          some (record {
            pkey_pem = make_pem_key o pky;
            cert_pem = make_pem_cert o d.behind (fake_certificate d dns_name ca_cert ca_pky pky);
          })
    ]
  ]
