-- ===== src/Certificate/Issued.antt =====
-- What the certificates of src/config.cpp and src/https/mitm_svc.cpp say.
use hcpp.Common.{
  ◌+◌, ◌*◌, Bool, true, false, List, [], ◌∷◌, ◌++◌, none, some, Bytes, ◌≡◌, ap, ◌∙◌, append-nil,
  codes,
}
use hcpp.Certificate.{
  Openssl, SubjectIdentify, default_name_entries, generate_pkey, set_version, set_serial_number,
  set_issuer, set_validity, set_subject, set_pubkey, add_ca_key_usage, generate_key_id, add_ski,
  add_aki, add_dns_san, add_ca_bs, add_issuer, sign, make_pem_cert, make_pem_key, Extension,
  subject_alt_name, subject_key_identifier, authority_key_identifier, key_usage, basic_constraints,
  bin2bn, positive, has_nid, nid_of, add_default,
}
use hcpp.Certificate.Laws.{IsOpenssl}
use hcpp.Certificate.Issue.{Draws, ca_certificate, fake_certificate, make_ca, make_fake_server_id}

abbrev pub san_of : List Bytes → List (Extension × Bool)
san_of [] = []
san_of (n ∷ ns) = (subject_alt_name (n ∷ ns), false) ∷ []

module _ {o : Openssl} (laws : IsOpenssl o) where
  open laws use {
    new_lem, version_lem, serial_lem, issuer_lem, subject_lem, not_before_lem, not_after_lem,
    pubkey_lem, add1_ext_lem, add_ext_lem, digest, digest_lem, sign_fields, sign_verifies, pem_x509,
    pem_private_key, pem_is_text,
  }

  pub ca_certificate-fields :
      (d : Draws) (k : o.Pkey)
      → let c = ca_certificate o d (some k) in
        (o.fields c ≡ record {
          version = 2;
          serial = bin2bn 0 (positive d.serial);
          issuer = default_name_entries;
          subject = default_name_entries;
          not_before = d.now;
          not_after = d.now + 3650 * 86400;
          pubkey = some (o.public_of k);
          extensions =
              (basic_constraints (codes "CA:true"), true)
              ∷ (authority_key_identifier (digest none), false)
              ∷ (subject_key_identifier (digest none), false)
              ∷ (key_usage (6 ∷ []), true)
              ∷ [];
        })
        × (o.verifies c (o.public_of k) ≡ true)
  unfolding ca_certificate set_version set_serial_number set_issuer set_validity set_subject
      set_pubkey add_ca_key_usage generate_key_id add_ski add_aki add_ca_bs sign add_default has_nid
      nid_of
  ca_certificate-fields d k = (
    simp (
      sign_fields, pubkey_lem, add1_ext_lem, add_ext_lem, digest_lem, issuer_lem, subject_lem,
      not_after_lem, not_before_lem, serial_lem, version_lem, new_lem,
    ),
    sign_verifies k _,
  )

  pub fake_certificate-fields :
      (d : Draws) (names : List Bytes) (ca : o.X509) (k j : o.Pkey)
      → let c = fake_certificate o d names ca k (some j) in
        (o.fields c ≡ record {
          version = 2;
          serial = bin2bn 0 (positive d.serial);
          issuer = (o.fields ca).subject;
          subject = default_name_entries;
          not_before = d.now;
          not_after = d.now + 3650 * 86400;
          pubkey = some (o.public_of j);
          extensions =
              san_of names
              ++ ((authority_key_identifier (digest none), false)
                  ∷ (subject_key_identifier (digest none), false)
                  ∷ []);
        })
        × (o.verifies c (o.public_of k) ≡ true)
  unfolding fake_certificate set_version set_serial_number set_validity set_subject set_pubkey
      generate_key_id add_ski add_aki add_dns_san add_issuer sign add_default has_nid nid_of
  fake_certificate-fields d [] ca k j = (
    simp (
      sign_fields, pubkey_lem, add1_ext_lem, digest_lem, issuer_lem, subject_lem, not_after_lem,
      not_before_lem, serial_lem, version_lem, new_lem,
    ),
    sign_verifies k _,
  )
  fake_certificate-fields d (n ∷ ns) ca k j = (
    simp (
      sign_fields, pubkey_lem, add1_ext_lem, digest_lem, issuer_lem, subject_lem, not_after_lem,
      not_before_lem, serial_lem, version_lem, new_lem,
    ),
    sign_verifies k _,
  )

  pem_cert-read :
      (c : o.X509) (rest : Bytes) → o.pem_read_x509 (make_pem_cert o (0 ∷ rest) c) ≡ some c
  unfolding make_pem_cert
  pem_cert-read c rest =
      rw (pem_is_text c rest) (rw (← append-nil (o.pem_write_x509 c)) (pem_x509 c []))

  made_ca :
      (d : Draws) (k : o.Pkey) (rest : Bytes)
      → generate_pkey o d.seed ≡ some k
      → d.behind ≡ 0 ∷ rest
      → make_ca o d ≡ record {
        pkey_pem = make_pem_key o (some k);
        cert_pem = make_pem_cert o (0 ∷ rest) (ca_certificate o d (some k));
      }
  unfolding make_ca
  made_ca d k rest e f =
      ap
        (λ p. record {
          pkey_pem = make_pem_key o p;
          cert_pem = make_pem_cert o d.behind (ca_certificate o d p);
        })
        e
      ∙ ap
          (λ b. record {
            pkey_pem = make_pem_key o (some k);
            cert_pem = make_pem_cert o b (ca_certificate o d (some k));
          })
          f

  made_fake :
      (e : Draws) (names : List Bytes) (si : SubjectIdentify) (k j : o.Pkey) (ca : o.X509)
      (more : Bytes)
      → o.pem_read_private_key si.pkey_pem ≡ some k
      → o.pem_read_x509 si.cert_pem ≡ some ca
      → generate_pkey o e.seed ≡ some j
      → e.behind ≡ 0 ∷ more
      → make_fake_server_id o e names si
        ≡ some (record {
          pkey_pem = make_pem_key o (some j);
          cert_pem = make_pem_cert o (0 ∷ more) (fake_certificate o e names ca k (some j));
        })
  unfolding make_fake_server_id
  made_fake e names si k j ca more p q r f =
      rw (make_fake_server_id, p, q)
        (ap
            (λ b. some (record {
              pkey_pem = make_pem_key o b;
              cert_pem = make_pem_cert o e.behind (fake_certificate o e names ca k b);
            }))
            r
          ∙ ap
              (λ b. some (record {
                pkey_pem = make_pem_key o (some j);
                cert_pem = make_pem_cert o b (fake_certificate o e names ca k (some j));
              }))
              f)

  -- If OpenSSL does what it documents, both keys are generated and the byte behind each buffer is
  -- 0, then for the authority that the configuration makes the identity of a server is made: its
  -- texts are read as the new key and as a certificate that the authority's key verifies, that has
  -- the authority's subject as issuer, the new key, exactly the given names, ten years from now
  -- on, and two key identifiers that do not depend on the key, and that has no mark of an
  -- authority.
  pub make_fake_server_id-verifies :
      (d e : Draws) (names : List Bytes) (k j : o.Pkey) (rest more : Bytes)
      → generate_pkey o d.seed ≡ some k
      → generate_pkey o e.seed ≡ some j
      → d.behind ≡ 0 ∷ rest
      → e.behind ≡ 0 ∷ more
      → (si : SubjectIdentify) × (c ca : o.X509) × (make_fake_server_id o e names (make_ca o d)
          ≡ some si)
        × (o.pem_read_private_key si.pkey_pem ≡ some j)
        × (o.pem_read_x509 si.cert_pem ≡ some c)
        × (o.pem_read_x509 (make_ca o d).cert_pem ≡ some ca)
        × (o.verifies c (o.public_of k) ≡ true)
        × ((o.fields ca).pubkey ≡ some (o.public_of k))
        × (o.fields c ≡ record {
          version = 2;
          serial = bin2bn 0 (positive e.serial);
          issuer = (o.fields ca).subject;
          subject = default_name_entries;
          not_before = e.now;
          not_after = e.now + 3650 * 86400;
          pubkey = some (o.public_of j);
          extensions =
              san_of names
              ++ ((authority_key_identifier (digest none), false)
                  ∷ (subject_key_identifier (digest none), false)
                  ∷ []);
        })
  unfolding make_pem_key
  make_fake_server_id-verifies d e names k j rest more dk ej db eb =
      let ca = ca_certificate o d (some k) in
      let c = fake_certificate o e names ca k (some j) in
      let (said, signed) = fake_certificate-fields e names ca k j in
      let made = made_ca d k rest dk db in
      let key_read : o.pem_read_private_key (make_ca o d).pkey_pem ≡ some k =
        ap (λ s. o.pem_read_private_key s.pkey_pem) made ∙ pem_private_key k (0 ∷ []) in
      let cert_read : o.pem_read_x509 (make_ca o d).cert_pem ≡ some ca =
        ap (λ s. o.pem_read_x509 s.cert_pem) made ∙ pem_cert-read ca rest in
      (
        record { pkey_pem = make_pem_key o (some j); cert_pem = make_pem_cert o (0 ∷ more) c },
        c,
        ca,
        made_fake e names (make_ca o d) k j ca more key_read cert_read ej eb,
        pem_private_key j (0 ∷ []),
        pem_cert-read c more,
        cert_read,
        signed,
        ap (λ f. f.pubkey) (ca_certificate-fields d k).0,
        said,
      )
