-- ===== src/Tests/Certificates.antt =====
-- An OpenSSL that can be evaluated, and a certificate of it.
use hcpp.Common.{
  ℕ, suc, ◌+◌, ◌*◌, true, false, List, [], ◌∷◌, ◌++◌, append-nil, Option, none, some, Bytes, codes,
  ◌≡◌, refl, ap, ◌∙◌, ◌==◌, arith,
}
use hcpp.Http.Chunks.{c_string}
use hcpp.Certificate.{
  Openssl, Fields, subject_key_identifier, authority_key_identifier, add_default, SubjectIdentify,
  bin2bn, positive, generate_pkey, default_name_entries,
}
use hcpp.Certificate.Laws.{IsOpenssl}
use hcpp.Certificate.Issue.{Draws, make_ca, make_fake_server_id}
use hcpp.Certificate.Issued.{san_of, make_fake_server_id-verifies}
use hcpp.Tests.Codec.{Codec, nat_codec, via, pair, list}
use hcpp.Tests.Fields.{name_entry, extension, key_to, key}

-- A certificate with the key that has signed it; a key is its own public part.
pub record Signed : Type 0 where
  pub says : Fields ℕ
  pub signer : Option ℕ

abbrev signed : Codec Signed
signed =
    via
      (pair (pair nat_codec nat_codec) (
        pair (pair (list name_entry) (list name_entry))
          (pair (pair nat_codec nat_codec) (pair key (pair (list extension) key)))))
      (λ c. (
        (c.says.version, c.says.serial),
        (
          (c.says.issuer, c.says.subject),
          ((c.says.not_before, c.says.not_after), (c.says.pubkey, (c.says.extensions, c.signer))),
        ),
      ))
      (λ p. record {
        says = record {
          version = p.0.0;
          serial = p.0.1;
          issuer = p.1.0.0;
          subject = p.1.0.1;
          not_before = p.1.1.0.0;
          not_after = p.1.1.0.1;
          pubkey = p.1.1.1.0;
          extensions = p.1.1.1.1.0;
        };
        signer = p.1.1.1.1.1;
      })
      (λ c. refl)

abbrev first_of : {A B : Type 0} → Option (A × B) → Option A
first_of none = none
first_of (some p) = some p.0

abbrev says_with : Signed → Fields ℕ → Signed
says_with c f = record c { says = f }

abbrev key_text : Option ℕ → Bytes
key_text none = []
key_text (some k) = nat_codec.enc k

abbrev public_field : Option ℕ → Fields ℕ → Fields ℕ
public_field none f = f
public_field (some k) f = record f { pubkey = some k }

abbrev pub toy : Openssl
toy = record {
  X509 = Signed;
  Pkey = ℕ;
  Public = ℕ;
  Context = ℕ;
  fields = λ c. c.says;
  verifies = λ c k. key_to c.signer == suc k;
  public_of = λ k. k;
  ctx_new_id = λ seed. some seed;
  keygen_init = λ c. some c;
  set_rsa_keygen_bits = λ bits c. some c;
  keygen = λ c. some c;
  x509_new = record {
    says = record {
      version = 0;
      serial = 0;
      issuer = [];
      subject = [];
      not_before = 0;
      not_after = 0;
      pubkey = none;
      extensions = [];
    };
    signer = none;
  };
  x509_set_version = λ n c. says_with c (record c.says { version = n });
  x509_set_serial = λ n c. says_with c (record c.says { serial = n });
  x509_set_issuer = λ n c. says_with c (record c.says { issuer = n });
  x509_set_subject = λ n c. says_with c (record c.says { subject = n });
  x509_set_not_before = λ t c. says_with c (record c.says { not_before = t });
  x509_set_not_after = λ t c. says_with c (record c.says { not_after = t });
  x509_set_pubkey = λ k c. says_with c (public_field k c.says);
  x509_add1_ext = λ e critical c.
      says_with c (record c.says { extensions = add_default e critical c.says.extensions });
  x509_add_ext = λ e critical c.
      says_with c (record c.says { extensions = c.says.extensions ++ ((e, critical) ∷ []) });
  x509_pubkey_digest = λ c. key.enc c.says.pubkey;
  x509_sign = λ k c. record c { signer = k };
  pem_write_x509 = λ c. signed.enc c;
  pem_write_private_key = key_text;
  pem_read_x509 = λ t. first_of (signed.dec t);
  pem_read_private_key = λ t. first_of (nat_codec.dec t);
}

toy_verifies : (k : ℕ) → (suc k == suc k) ≡ true
toy_verifies k = ground arith

toy_text : (c : Signed) (rest : Bytes) → c_string (signed.enc c ++ (0 ∷ rest)) ≡ signed.enc c
unfolding c_string
toy_text c rest = signed.text_lem c (0 ∷ rest) ∙ append-nil (signed.enc c)

toy-IsOpenssl : IsOpenssl toy
toy-IsOpenssl = record {
  new_lem = refl;
  version_lem = λ n c. refl;
  serial_lem = λ n c. refl;
  issuer_lem = λ n c. refl;
  subject_lem = λ n c. refl;
  not_before_lem = λ n c. refl;
  not_after_lem = λ n c. refl;
  pubkey_lem = λ k c. refl;
  add1_ext_lem = λ e critical c. refl;
  add_ext_lem = λ e critical c. refl;
  digest = λ k. key.enc k;
  digest_lem = λ c. refl;
  sign_fields = λ k c. refl;
  sign_verifies = λ k c. toy_verifies k;
  pem_x509 = λ c rest. ap first_of (signed.read_lem c rest);
  pem_is_text = toy_text;
  pem_private_key = λ k rest. ap first_of (nat_codec.read_lem k rest);
}

abbrev pub draws : ℕ → Draws
draws seed = record { serial = 200 ∷ 1 ∷ []; seed = seed; now = 1000; behind = 0 ∷ 77 ∷ [] }

abbrev names : List Bytes
names = codes "a.org" ∷ codes "*.a.org" ∷ []

make_fake_server_id-verifies_example :
    (si : SubjectIdentify) × (c ca : Signed) × (make_fake_server_id toy
        (draws 5)
        names
        (make_ca toy (draws 4))
      ≡ some si)
    × (toy.pem_read_private_key si.pkey_pem ≡ some 5)
    × (toy.pem_read_x509 si.cert_pem ≡ some c)
    × (toy.pem_read_x509 (make_ca toy (draws 4)).cert_pem ≡ some ca)
    × (toy.verifies c 4 ≡ true)
    × (ca.says.pubkey ≡ some 4)
    × (c.says ≡ record {
      version = 2;
      serial = bin2bn 0 (positive (200 ∷ 1 ∷ []));
      issuer = ca.says.subject;
      subject = default_name_entries;
      not_before = 1000;
      not_after = 1000 + 3650 * 86400;
      pubkey = some 5;
      extensions =
          san_of names
          ++ ((authority_key_identifier (key.enc none), false)
              ∷ (subject_key_identifier (key.enc none), false)
              ∷ []);
    })
unfolding generate_pkey positive toy-IsOpenssl
make_fake_server_id-verifies_example =
    make_fake_server_id-verifies toy-IsOpenssl (draws 4) (draws 5) names 4 5 (77 ∷ []) (77 ∷ [])
      refl refl refl refl
