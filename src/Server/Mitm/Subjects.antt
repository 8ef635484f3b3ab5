-- ===== src/Server/Mitm/Subjects.antt =====
-- `mimt_https_server::wait_c` of src/httpserver.cpp: the identity with which the proxy answers a client
-- in the place of a server, and the table in which it is kept. Other clients may be served between
-- the look into the table and the insertion.
pub mod Genuine
use hcpp.Common.{Bool, true, false, List, [], ◌∷◌, Option, none, some, Bytes, ◌≡◌, if◌then◌else◌}
use hcpp.Certificate.{Openssl, SubjectIdentify}
use hcpp.Certificate.Issue.{Draws, make_fake_server_id}
use hcpp.Server.{InterceptSet, default_set, find_entry, emplace_entry}
use hcpp.Server.Mitm.{ChannelClient}
use hcpp.Server.Mitm.Handshake.{MitmSvc, new_svc, Network, PartCertInfo, make_memory}

abbrev pub Subjects : Type 0
Subjects = List (Bytes × SubjectIdentify)

-- The interceptor of the client, or a new one.
unfoldable pub set_of : ChannelClient → InterceptSet
set_of cc = elim cc.is [ none ↦ default_set | some i ↦ i ]

unfoldable pub svc_for : InterceptSet → Bool → MitmSvc
svc_for is collects = record new_svc {
  sni_host = is.sni_host;
  enable_sni = if is.close_sni then false else true;
  collects = collects;
}

-- What a client is served with.
pub record Identity (Mem : Type 0) : Type 0 where
  pub si : SubjectIdentify
  pub service : Mem
  pub is_new : Bool

module _ (net : Network) (o : Openssl) (ca : SubjectIdentify) where
  open net use {Mem}

  -- An identity of the table is used with a connection whose names are not looked at.
  unfoldable pub known_identity :
      InterceptSet → ChannelClient → SubjectIdentify → Option (Identity Mem)
  known_identity is cc si =
      elim (make_memory net (svc_for is false) cc.host cc.service is.doh
        (record { dns_name = []; pubkey = [] })) [
          | none ↦ none
          | some (m, pci) ↦ some (record { si = si; service = m; is_new = false })
        ]

  unfoldable pub new_identity : Draws → InterceptSet → ChannelClient → Option (Identity Mem)
  new_identity d is cc =
      elim (make_memory net (svc_for is true) cc.host cc.service is.doh
        (record { dns_name = []; pubkey = [] })) [
          | none ↦ none
          | some (m, pci) ↦ elim (make_fake_server_id o d pci.dns_name ca) [
            | none ↦ none
            | some si ↦ some (record { si = si; service = m; is_new = true })
          ]
        ]

  -- `init_` of the client up to the insertion; `none` is an exception.
  unfoldable pub identity_for : Draws → Subjects → ChannelClient → Option (Identity Mem)
  identity_for d map cc = elim (find_entry cc.host map) [
    | some si ↦ known_identity (set_of cc) cc si
    | none ↦ new_identity d (set_of cc) cc
  ]

  unfoldable pub remember : ChannelClient → Identity Mem → Subjects → Subjects
  remember cc i map = if i.is_new then emplace_entry cc.host i.si map else map

  -- The tables of one thread: a client is served after a look into the table at any earlier time.
  pub data Reach : Subjects → Type 0 where
    start : Reach []
    serves :
        (d : Draws) (cc : ChannelClient) (seen map : Subjects) (i : Identity Mem)
        → Reach seen
        → Reach map
        → identity_for d seen cc ≡ some i
        → Reach (remember cc i map)
