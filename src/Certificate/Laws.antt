-- ===== src/Certificate/Laws.antt =====
-- What src/certificate/cert.cpp relies on of OpenSSL: every setter changes its own field, a
-- signature verifies with the public part of the key that has signed, texts have no byte 0, and
-- they are read back, whatever stands behind them.
use hcpp.Common.{ℕ, Bool, true, List, [], ◌∷◌, ◌++◌, Option, none, some, Bytes, ◌≡◌}
use hcpp.Http.Chunks.{c_string}
use hcpp.Certificate.{Openssl, NameEntry, Extension, add_default}

pub record IsOpenssl (o : Openssl) : Type 0 where
  pub new_lem : o.fields o.x509_new ≡ record {
    version = 0;
    serial = 0;
    issuer = [];
    subject = [];
    not_before = 0;
    not_after = 0;
    pubkey = none;
    extensions = [];
  }
  pub version_lem :
      (n : ℕ) (c : o.X509) → o.fields (o.x509_set_version n c) ≡ record (o.fields c) { version = n }
  pub serial_lem :
      (n : ℕ) (c : o.X509) → o.fields (o.x509_set_serial n c) ≡ record (o.fields c) { serial = n }
  pub issuer_lem :
      (n : List NameEntry) (c : o.X509)
      → o.fields (o.x509_set_issuer n c) ≡ record (o.fields c) { issuer = n }
  pub subject_lem :
      (n : List NameEntry) (c : o.X509)
      → o.fields (o.x509_set_subject n c) ≡ record (o.fields c) { subject = n }
  pub not_before_lem :
      (t : ℕ) (c : o.X509)
      → o.fields (o.x509_set_not_before t c) ≡ record (o.fields c) { not_before = t }
  pub not_after_lem :
      (t : ℕ) (c : o.X509)
      → o.fields (o.x509_set_not_after t c) ≡ record (o.fields c) { not_after = t }
  pub pubkey_lem :
      (k : o.Pkey) (c : o.X509)
      → o.fields (o.x509_set_pubkey (some k) c)
        ≡ record (o.fields c) { pubkey = some (o.public_of k) }
  pub add1_ext_lem :
      (e : Extension) (critical : Bool) (c : o.X509)
      → o.fields (o.x509_add1_ext e critical c)
        ≡ record (o.fields c) { extensions = add_default e critical (o.fields c).extensions }
  pub add_ext_lem :
      (e : Extension) (critical : Bool) (c : o.X509)
      → o.fields (o.x509_add_ext e critical c)
        ≡ record (o.fields c) { extensions = (o.fields c).extensions ++ ((e, critical) ∷ []) }
  -- The digest is one of the key in the certificate.
  pub digest : Option o.Public → Bytes
  pub digest_lem : (c : o.X509) → o.x509_pubkey_digest c ≡ digest (o.fields c).pubkey
  pub sign_fields : (k : o.Pkey) (c : o.X509) → o.fields (o.x509_sign (some k) c) ≡ o.fields c
  pub sign_verifies :
      (k : o.Pkey) (c : o.X509) → o.verifies (o.x509_sign (some k) c) (o.public_of k) ≡ true
  pub pem_x509 : (c : o.X509) (rest : Bytes) → o.pem_read_x509 (o.pem_write_x509 c ++ rest) ≡ some c
  pub pem_is_text :
      (c : o.X509) (rest : Bytes) → c_string (o.pem_write_x509 c ++ (0 ∷ rest)) ≡ o.pem_write_x509 c
  pub pem_private_key :
      (k : o.Pkey) (rest : Bytes)
      → o.pem_read_private_key (o.pem_write_private_key (some k) ++ rest) ≡ some k
