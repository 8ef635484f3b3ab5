-- ===== src/Server/Mitm/Handshake/Names.antt =====
-- Which names a handshake of src/https/mitm_svc.cpp collects.
use hcpp.Common.{
  subst, Lacks, ◌⊎◌, ◌==◌, Bool, true, false, List, [], ◌∷◌, ◌++◌, Option, none, some, Bytes, ◌≡◌,
  refl, sym, ap, ◌∙◌, arith, append_assoc, append-nil, Bool-cases, Option-cases, inl, inr,
}
use hcpp.Http.Chunks.{c_string}
use hcpp.Server.Mitm.Handshake.{
  GeneralName, VerifyCall, PartCertInfo, MitmSvc, Network, dns_names, collect, verify, verify_all,
  server_name, handshake, make_memory,
}

-- The text of a name: its bytes up to the first 0, or all of them.
abbrev pub IsText : Bytes → Bytes → Type 0
IsText bytes text =
    Lacks 0 text × ((bytes ≡ text) ⊎ ((behind : Bytes) × (bytes ≡ text ++ (0 ∷ behind))))

-- The texts of the names that are names of DNS, in their order.
pub data AreDns : List GeneralName → List Bytes → Type 0 where
  no_name : AreDns [] []
  of_dns :
      (n : GeneralName) (ns : List GeneralName) (text : Bytes) (texts : List Bytes)
      → n.is_dns ≡ true
      → IsText n.bytes text
      → AreDns ns texts
      → AreDns (n ∷ ns) (text ∷ texts)
  other :
      (n : GeneralName) (ns : List GeneralName) (texts : List Bytes)
      → n.is_dns ≡ false
      → AreDns ns texts
      → AreDns (n ∷ ns) texts

-- Those of the certificates of all calls.
pub data AreNamed : List VerifyCall → List Bytes → Type 0 where
  no_call : AreNamed [] []
  without_names :
      (v : VerifyCall) (vs : List VerifyCall) (texts : List Bytes)
      → v.names ≡ none
      → AreNamed vs texts
      → AreNamed (v ∷ vs) texts
  with_names :
      (v : VerifyCall) (vs : List VerifyCall) (ns : List GeneralName) (own texts : List Bytes)
      → v.names ≡ some ns
      → AreDns ns own
      → AreNamed vs texts
      → AreNamed (v ∷ vs) (own ++ texts)

c_string-IsText : (s : Bytes) → IsText s (c_string s)
unfolding c_string
c_string-IsText [] = (tt, inl refl)
c_string-IsText (c ∷ cs) = elim (Bool-cases (c == 0)) [
  | inl z ↦ rw z (tt, inr (cs, ap (λ b. b ∷ cs) (ground (arith, z))))
  | inr n ↦
      let (clean, ends) = c_string-IsText cs in
      rw n (
        (ground (arith, n), clean),
        elim ends [ inl e ↦ inl (ap (◌∷◌ c) e) | inr (behind, e) ↦ inr (behind, ap (◌∷◌ c) e) ],
      )
]

dns_names-AreDns : (ns : List GeneralName) → AreDns ns (dns_names ns)
unfolding dns_names
dns_names-AreDns [] = no_name
dns_names-AreDns (n ∷ ns) = elim (Bool-cases n.is_dns) [
  | inl e ↦
      let taken : dns_names (n ∷ ns) ≡ c_string n.bytes ∷ dns_names ns = rw (dns_names, e) refl in
      subst (AreDns (n ∷ ns)) (sym taken) (
        of_dns n ns (c_string n.bytes) (dns_names ns) e (c_string-IsText n.bytes)
          (dns_names-AreDns ns))
  | inr e ↦
      let passed : dns_names (n ∷ ns) ≡ dns_names ns = rw (dns_names, e) refl in
      subst (AreDns (n ∷ ns)) (sym passed) (other n ns (dns_names ns) e (dns_names-AreDns ns))
]

-- The names that the code takes of the calls.
abbrev names_in : Option (List GeneralName) → List Bytes
names_in none = []
names_in (some ns) = dns_names ns

abbrev names_of : List VerifyCall → List Bytes
names_of [] = []
names_of (v ∷ vs) = names_in v.names ++ names_of vs

names_of-AreNamed : (vs : List VerifyCall) → AreNamed vs (names_of vs)
names_of-AreNamed [] = no_call
names_of-AreNamed (v ∷ vs) = elim (Option-cases v.names) [
  | inl e ↦
      subst (AreNamed (v ∷ vs)) (ap (λ o. names_in o ++ names_of vs) (sym e))
        (without_names v vs (names_of vs) e (names_of-AreNamed vs))
  | inr (ns, e) ↦ subst (AreNamed (v ∷ vs)) (ap (λ o. names_in o ++ names_of vs) (sym e)) (
      with_names v vs ns (dns_names ns) (names_of vs) e (dns_names-AreDns ns)
        (names_of-AreNamed vs))
]

collected :
    (v : VerifyCall) (pci : PartCertInfo) (o : Option (List GeneralName))
    → v.names ≡ o
    → v.preverified ≡ true
    → ((collect v pci).0 ≡ true) × ((collect v pci).1.dns_name ≡ pci.dns_name ++ names_in o)
unfolding collect
collected v pci none e f =
    (rw (collect, e, f) refl, rw (collect, e, f) (sym (append-nil pci.dns_name)))
collected v pci (some ns) e f = (rw (collect, e, f) refl, rw (collect, e, f) refl)

refused : (v : VerifyCall) (pci : PartCertInfo) → v.preverified ≡ false → (collect v pci).0 ≡ false
unfolding collect
refused v pci f = rw (collect, f) refl

none-ne-some : {A : Type 0} (a : A) → none ≡ some a → ⊥
none-ne-some a e = ground (arith, e)

module _ (net : Network) where
  -- Every certificate was found right, by the library and for the host.
  abbrev pub Accepted : Bytes → List VerifyCall → Type 0
  Accepted host [] = Unit {0}
  Accepted host (v ∷ vs) =
      (net.host_name_verification host v ≡ true) × (v.preverified ≡ true) × Accepted host vs

  verify_all-names :
      (host : Bytes) (vs : List VerifyCall) (pci q : PartCertInfo)
      → verify_all net host true vs pci ≡ some q
      → Accepted host vs × (q.dns_name ≡ pci.dns_name ++ names_of vs)
  unfolding verify_all verify
  verify_all-names host [] pci q h =
      (tt, ap (λ o. names_or o) (sym h) ∙ sym (append-nil pci.dns_name))
    where
      names_or : Option PartCertInfo → List Bytes
      names_or none = []
      names_or (some c) = c.dns_name
  verify_all-names host (v ∷ vs) pci q h = elim (Bool-cases (net.host_name_verification host v)) [
    | inr bad ↦
        let r : verify_all net host true (v ∷ vs) pci ≡ none = rw (verify_all, verify, bad) refl in
        absurd (none-ne-some q (sym r ∙ h))
    | inl good ↦ elim (Bool-cases v.preverified) [
      | inr bad ↦
          let r : verify_all net host true (v ∷ vs) pci ≡ none =
            rw (verify_all, verify, good, refused v pci bad) refl in
          absurd (none-ne-some q (sym r ∙ h))
      | inl fine ↦
          let (ok, names) = collected v pci v.names refl fine in
          let r : verify_all net host true (v ∷ vs) pci
              ≡ verify_all net host true vs (collect v pci).1 =
            rw (verify_all, verify, good, ok) refl in
          let (all, more) = verify_all-names host vs (collect v pci).1 q (sym r ∙ h) in
          (
            (good, fine, all),
            more
                ∙ ap (λ l. l ++ names_of vs) names
                ∙ append_assoc pci.dns_name (names_in v.names) (names_of vs),
          )
    ]
  ]

  -- What a successful handshake with a collector has seen.
  abbrev pub Saw : Bytes → PartCertInfo → Option (net.Mem × PartCertInfo) → Type 0
  Saw host pci none = Unit {0}
  Saw host pci (some (m, q)) =
      (vs : List VerifyCall) × (names : List Bytes) × Accepted host vs
      × AreNamed vs names
      × (q.dns_name ≡ pci.dns_name ++ names)

  handshake-Saw :
      (k : MitmSvc) (host : Bytes) (p : net.Peer) (sni : Option Bytes) (pci : PartCertInfo)
      → k.collects ≡ true
      → Saw host pci (handshake net k host p sni pci)
  unfolding handshake
  handshake-Saw k host p sni pci c =
      elim (Option-cases (verify_all net host k.collects (net.calls p sni) pci)) [
        | inl e ↦ rw (handshake, e) tt
        | inr (q, e) ↦ elim (Option-cases (net.connected p sni)) [
          | inl f ↦ rw (handshake, e, f) tt
          | inr (m, f) ↦
              let (all, names) =
                verify_all-names host (net.calls p sni) pci q
                  (ap (λ b. verify_all net host b (net.calls p sni) pci) (sym c) ∙ e) in
              rw (handshake, e, f)
                (
                  net.calls p sni,
                  names_of (net.calls p sni),
                  all,
                  names_of-AreNamed (net.calls p sni),
                  names,
                )
        ]
      ]

  pub make_memory-Saw :
      (k : MitmSvc) (host service : Bytes) (doh : Bool) (pci : PartCertInfo)
      → k.collects ≡ true
      → Saw host pci (make_memory net k host service doh pci)
  unfolding make_memory
  make_memory-Saw k host service doh pci c =
      elim (Option-cases (net.make_socket host service doh)) [
        | inl e ↦ rw (make_memory, e) tt
        | inr (none, e) ↦ rw (make_memory, e) tt
        | inr (some p, e) ↦ elim (Option-cases (server_name net k)) [
          | inl f ↦ rw (make_memory, e, f) tt
          | inr (sni, f) ↦ rw (make_memory, e, f) (handshake-Saw k host p sni pci c)
        ]
      ]
