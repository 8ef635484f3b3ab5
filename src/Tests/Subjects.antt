-- ===== src/Tests/Subjects.antt =====
-- A client is served in the place of a server, and a second one with the identity that is kept.
use hcpp.Common.{
  ℕ, Bool, true, false, List, [], ◌∷◌, ◌++◌, none, some, Bytes, codes, equal, ◌≡◌, refl,
}
use hcpp.Http.Chunks.{c_string}
use hcpp.Certificate.{
  Openssl, Extension, basic_constraints, key_usage, subject_key_identifier,
  authority_key_identifier, subject_alt_name, SubjectIdentify, generate_pkey, make_pem_key,
  make_pem_cert, set_version, set_serial_number, set_validity, set_subject, set_pubkey, add_ski,
  add_aki, add_dns_san, add_issuer, sign, generate_key_id, bin2bn, positive,
}
use hcpp.Certificate.Issue.{Draws, make_fake_server_id, fake_certificate}
use hcpp.Server.{find_entry, emplace_entry}
use hcpp.Server.Mitm.{ChannelClient}
use hcpp.Server.Mitm.Handshake.{
  new_svc, VerifyCall, Network, make_memory, server_name, handshake, verify_all, verify, collect,
  dns_names,
}
use hcpp.Server.Mitm.Subjects.{
  Identity, set_of, svc_for, known_identity, new_identity, identity_for, remember, Reach, start,
  serves,
}
use hcpp.Server.Mitm.Subjects.Genuine.{IsGenuine, identity_for-IsGenuine}

abbrev leaf : VerifyCall
leaf = record {
  preverified = true;
  names = some (
      record { is_dns = true; bytes = codes "a.org" } ∷ record { is_dns = false; bytes = [] } ∷ []);
  pubkey = [];
  depth = 0;
}

abbrev net : Network
net = record {
  Mem = ℕ;
  Peer = Bytes;
  make_socket = λ host service doh. some (some host);
  host_name_verification = λ host v. true;
  set_host_name = λ name. true;
  close_servername = true;
  calls = λ p sni. leaf ∷ [];
  connected = λ p sni. some 7;
}

abbrev client : ChannelClient
client = record { host = codes "a.org"; service = codes "443"; is = none }

-- A certificate is the text of its names.
abbrev joined : List Bytes → Bytes
joined [] = []
joined (n ∷ ns) = n ++ joined ns

abbrev with_names : Extension → Bytes → Bytes
with_names (subject_alt_name names) c = joined names
with_names (basic_constraints b) c = c
with_names (key_usage b) c = c
with_names (subject_key_identifier b) c = c
with_names (authority_key_identifier b) c = c

abbrev simple : Openssl
simple = record {
  X509 = Bytes;
  Pkey = Unit {0};
  Public = Unit {0};
  Context = Unit {0};
  fields = λ c. record {
    version = 2;
    serial = 0;
    issuer = [];
    subject = [];
    not_before = 0;
    not_after = 0;
    pubkey = none;
    extensions = [];
  };
  verifies = λ c k. true;
  public_of = λ k. tt;
  ctx_new_id = λ seed. some tt;
  keygen_init = λ c. some tt;
  set_rsa_keygen_bits = λ bits c. some tt;
  keygen = λ c. some tt;
  x509_new = [];
  x509_set_version = λ n c. c;
  x509_set_serial = λ n c. c;
  x509_set_issuer = λ n c. c;
  x509_set_subject = λ n c. c;
  x509_set_not_before = λ t c. c;
  x509_set_not_after = λ t c. c;
  x509_set_pubkey = λ k c. c;
  x509_add1_ext = λ e critical c. with_names e c;
  x509_add_ext = λ e critical c. c;
  x509_pubkey_digest = λ c. [];
  x509_sign = λ k c. c;
  pem_write_x509 = λ c. c;
  pem_write_private_key = λ k. codes "key";
  pem_read_x509 = λ t. some t;
  pem_read_private_key = λ t. some tt;
}

abbrev authority : SubjectIdentify
authority = record { pkey_pem = codes "key"; cert_pem = codes "proxy" }

abbrev draws : Draws
draws = record { serial = []; seed = 0; now = 0; behind = 0 ∷ [] }

abbrev fake : SubjectIdentify
fake = record { pkey_pem = codes "key" ++ (0 ∷ []); cert_pem = codes "a.org" }

abbrev given : Bool → Identity ℕ
given new = record { si = fake; service = 7; is_new = new }

first : identity_for net simple authority draws [] client ≡ some (given true)
unfolding identity_for new_identity set_of svc_for find_entry make_memory server_name handshake
    verify_all verify collect dns_names c_string make_fake_server_id generate_pkey equal
    fake_certificate set_version set_serial_number set_validity set_subject set_pubkey add_ski
    add_aki add_dns_san add_issuer sign make_pem_cert make_pem_key generate_key_id bin2bn positive
    new_svc
first = refl

second :
    identity_for net simple authority draws ((codes "a.org", fake) ∷ []) client ≡ some (given false)
unfolding identity_for known_identity set_of svc_for find_entry make_memory server_name handshake
    verify_all verify collect dns_names c_string equal new_svc
second = refl

reached : Reach net simple authority ((codes "a.org", fake) ∷ [])
unfolding remember emplace_entry
reached = serves draws client [] [] (given true) start start first

identity_for-IsGenuine_example : IsGenuine net simple authority (codes "a.org") fake
identity_for-IsGenuine_example =
    identity_for-IsGenuine net simple authority draws client (given false) reached second
