-- ===== src/Server/Mitm/Subjects/Genuine.antt =====
-- Whom the identities in the table of src/httpserver.cpp name.
use hcpp.Common.{
  true, false, List, [], Option, none, some, Bytes, equal, equal_iff, ◌≡◌, refl, sym, ap, ◌∙◌,
  subst, arith, if◌then◌else◌, Bool-cases, Option-cases, inl, inr,
}
use hcpp.Certificate.{Openssl, SubjectIdentify}
use hcpp.Certificate.Issue.{Draws, make_fake_server_id}
use hcpp.Server.{InterceptSet, find_entry}
use hcpp.Server.Filters.{find_entry-emplace, or_else}
use hcpp.Server.Mitm.{ChannelClient}
use hcpp.Server.Mitm.Handshake.{VerifyCall, Network, PartCertInfo, make_memory}
use hcpp.Server.Mitm.Handshake.Names.{AreNamed, Accepted, Saw, make_memory-Saw}
use hcpp.Server.Mitm.Subjects.{
  Subjects, Identity, set_of, svc_for, known_identity, new_identity, identity_for, remember, Reach,
  start, serves,
}

module _ (net : Network) (o : Openssl) (ca : SubjectIdentify) where
  -- The identity of a server: made with the authority of the proxy, for the names in certificates
  -- that were found right for that server.
  abbrev pub IsGenuine : Bytes → SubjectIdentify → Type 0
  IsGenuine host si =
      (d : Draws) × (vs : List VerifyCall) × (names : List Bytes) × Accepted net host vs
      × AreNamed vs names
      × (make_fake_server_id o d names ca ≡ some si)

  AllGenuine : Subjects → Type 0
  AllGenuine map =
      (host : Bytes) (si : SubjectIdentify) → find_entry host map ≡ some si → IsGenuine host si

  abbrev Gives : Bytes → Option (Identity net.Mem) → Type 0
  Gives host none = Unit {0}
  Gives host (some i) = IsGenuine host i.si

  known-Gives :
      (is : InterceptSet) (cc : ChannelClient) (si : SubjectIdentify)
      → IsGenuine cc.host si
      → Gives cc.host (known_identity net o ca is cc si)
  unfolding known_identity
  known-Gives is cc si g =
      let pci : PartCertInfo = record { dns_name = []; pubkey = [] } in
      elim (Option-cases (make_memory net (svc_for is false) cc.host cc.service is.doh pci)) [
        | inl e ↦ rw (known_identity, e) tt
        | inr (x, e) ↦ rw (known_identity, e) g
      ]

  new-Gives :
      (d : Draws) (is : InterceptSet) (cc : ChannelClient)
      → Gives cc.host (new_identity net o ca d is cc)
  unfolding new_identity
  new-Gives d is cc =
      let pci : PartCertInfo = record { dns_name = []; pubkey = [] } in
      elim (Option-cases (make_memory net (svc_for is true) cc.host cc.service is.doh pci)) [
        | inl e ↦ rw (new_identity, e) tt
        | inr ((m, q), e) ↦
            let saw : Saw net cc.host pci (some (m, q)) = subst (Saw net cc.host pci) e (
              make_memory-Saw net (svc_for is true) cc.host cc.service is.doh pci
                (unfold svc_for in refl)) in
            elim (Option-cases (make_fake_server_id o d q.dns_name ca)) [
              | inl f ↦ rw (new_identity, e, f) tt
              | inr (si, f) ↦
                  rw (new_identity, e, f)
                    (
                      d,
                      saw.0,
                      saw.1,
                      saw.2,
                      saw.3,
                      ap (λ l. make_fake_server_id o d l ca) (sym saw.4) ∙ f,
                    )
            ]
      ]

  looked_up-Gives :
      (d : Draws) (map : Subjects) (cc : ChannelClient)
      → AllGenuine map
      → Gives cc.host (identity_for net o ca d map cc)
  unfolding identity_for AllGenuine
  looked_up-Gives d map cc all = elim (Option-cases (find_entry cc.host map)) [
    | inl e ↦ rw (identity_for, e) (new-Gives d (set_of cc) cc)
    | inr (si, e) ↦ rw (identity_for, e) (known-Gives (set_of cc) cc si (all cc.host si e))
  ]

  kept_or_new :
      (host j : Bytes) (o1 : Option SubjectIdentify) (new si : SubjectIdentify)
      → ((s : SubjectIdentify) → o1 ≡ some s → IsGenuine j s)
      → IsGenuine host new
      → or_else o1 (if equal j host then some new else none) ≡ some si
      → IsGenuine j si
  unfolding or_else
  kept_or_new host j (some s) new si all g e = all si e
  kept_or_new host j none new si all g e = elim (Bool-cases (equal j host)) [
    | inl same ↦
        let r : some new ≡ some si = rw same at e in
        subst (λ h. IsGenuine h si) (sym ((equal_iff j host).0 same))
          (subst (IsGenuine host) (ap (or_new new) r) g)
    | inr other ↦ let r : none ≡ some si = rw other at e in absurd (ground (arith, r))
  ]
    where
      or_new : SubjectIdentify → Option SubjectIdentify → SubjectIdentify
      or_new s none = s
      or_new s (some t) = t

  remember-AllGenuine :
      (cc : ChannelClient) (i : Identity net.Mem) (map : Subjects)
      → AllGenuine map
      → IsGenuine cc.host i.si
      → AllGenuine (remember net o ca cc i map)
  unfolding remember AllGenuine
  remember-AllGenuine cc i map all g = elim (Bool-cases i.is_new) [
    | inr known ↦ rw (remember, known) all
    | inl new ↦
        rw (remember, new)
          (λ j si e.
            kept_or_new cc.host j (find_entry j map) i.si si (all j) g
              (sym (find_entry-emplace j cc.host i.si map) ∙ e))
  ]

  Reach-AllGenuine : {map : Subjects} → Reach net o ca map → AllGenuine map
  unfolding AllGenuine find_entry
  Reach-AllGenuine start = λ host si e. absurd (ground (arith, e))
  Reach-AllGenuine (serves d cc seen map i r s e) =
      remember-AllGenuine cc i map (Reach-AllGenuine s)
        (subst (Gives cc.host) e (looked_up-Gives d seen cc (Reach-AllGenuine r)))

  -- Whatever clients the interception of TLS has served before, and in whatever order, the
  -- identity with which it answers a client was made with the authority of the proxy for the DNS
  -- names, in their order and each up to its first byte 0, and for no other names, in certificates
  -- that the library had found right and that passed the verification of the host name for the
  -- host that the client asked for.
  pub identity_for-IsGenuine :
      {map : Subjects} (d : Draws) (cc : ChannelClient) (i : Identity net.Mem)
      → Reach net o ca map
      → identity_for net o ca d map cc ≡ some i
      → IsGenuine cc.host i.si
  identity_for-IsGenuine {map = map} d cc i r e =
      subst (Gives cc.host) e (looked_up-Gives d map cc (Reach-AllGenuine r))
