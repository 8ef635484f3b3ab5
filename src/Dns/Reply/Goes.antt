-- ===== src/Dns/Reply/Goes.antt =====
-- The records of `parse_rfc8484` of src/dns/dnshttps.cc, one by one, and the name routines that they run.
use hcpp.Common.{
  ℕ, ◌+◌, ◌≤◌, Bool, false, not, ◌&&◌, ◌||◌, ◌≡◌, ◌⊎◌, inl, inr, refl, subst, arith, Bytes, length,
  ltb, ◌==◌, Bool-cases, equal,
}
use hcpp.Dns.Name.{Host, malformed, host, qname2host, host2qname, Qname, qname, overlong, lcs}
use hcpp.Dns.Name.Gaps.{EndsDot}
use hcpp.Dns.Name.Total.{host2qname-ends}
use hcpp.Dns.Name.Dots.{HasDot, qname2host-HasDot}
use hcpp.Dns.Name.Decode.{qname2host-ends}
use hcpp.Dns.Query.{htons}
use hcpp.Dns.Reply.{
  dns_type_a, dns_type_aaaa, dns_type_cname, dns_type_ns, dns_type_mx, Rr, Action, refuse, stuck,
  add, cname_action, type_action, rr_action,
}

pub Host-cases :
    (h : Host) → (h ≡ malformed) ⊎ ((n : ℕ) × (s : Bytes) × (h ≡ host n s)) ⊎ (h ≡ Host.unfinished)
Host-cases malformed = inl refl
Host-cases (host n s) = inr (inl (n, s, refl))
Host-cases Host.unfinished = inr (inr refl)

pub Qname-cases :
    (q : Qname) → (q ≡ overlong) ⊎ ((s : Bytes) × (q ≡ qname s)) ⊎ (q ≡ Qname.unfinished)
Qname-cases overlong = inl refl
Qname-cases (qname s) = inr (inl (s, refl))
Qname-cases Qname.unfinished = inr (inr refl)

abbrev pub Goes : Action → Type 0
Goes refuse = Unit {0}
Goes stuck = ⊥
Goes (add new counts) = Unit {0}

pub named : (msg s : Bytes) (start n : ℕ) → qname2host msg start ≡ host n s → EndsDot s
named msg s start n e = subst HasDot e (qname2host-HasDot msg start)

cname_action-Goes : (msg : Bytes) (r : Rr) → r.at ≤ length msg → Goes (cname_action msg r)
unfolding cname_action
cname_action-Goes msg r h = elim (Host-cases (qname2host msg r.at)) [
  | inl e ↦ rw (cname_action, e) tt
  | inr (inr e) ↦ absurd (qname2host-ends msg r.at h e)
  | inr (inl (n, s, e)) ↦ elim (Bool-cases (n == 0)) [
    | inl z ↦ rw (cname_action, e, z) tt
    | inr nz ↦ elim (Qname-cases (host2qname s)) [
      | inl f ↦ rw (cname_action, e, nz, f) tt
      | inr (inl (q, f)) ↦ rw (cname_action, e, nz, f) tt
      | inr (inr f) ↦ absurd (host2qname-ends s (named msg s r.at n e) f)
    ]
  ]
]

type_action-Goes :
    (msg : Bytes) (type : ℕ) (fqdn : Bytes) (r : Rr)
    → r.at ≤ length msg
    → Goes (type_action msg type fqdn r)
unfolding type_action
type_action-Goes msg type fqdn r h =
    elim (Bool-cases (r.qtype == htons dns_type_a && equal (lcs r.aname) fqdn)) [
      | inl a ↦ elim (Bool-cases (not (r.rdlen == 4))) [
        | inl bad ↦ rw (type_action, a, bad) tt
        | inr fine ↦ rw (type_action, a, fine) tt
      ]
      | inr na ↦ elim (Bool-cases (r.qtype == htons dns_type_aaaa && equal (lcs r.aname) fqdn)) [
        | inl b ↦ elim (Bool-cases (not (r.rdlen == 16))) [
          | inl bad ↦ rw (type_action, na, b, bad) tt
          | inr fine ↦ rw (type_action, na, b, fine) tt
        ]
        | inr nb ↦ elim (Bool-cases (r.qtype == htons dns_type_cname)) [
          | inl c ↦ rw (type_action, na, nb, c) (cname_action-Goes msg r h)
          | inr nc ↦ elim (Bool-cases (r.qtype == htons dns_type_ns && r.qtype == type)) [
            | inl d ↦ rw (type_action, na, nb, nc, d) tt
            | inr nd ↦ elim (Bool-cases (r.qtype == htons dns_type_mx && r.qtype == type)) [
              | inl f ↦ rw (type_action, na, nb, nc, nd, f) tt
              | inr nf ↦ rw (type_action, na, nb, nc, nd, nf) tt
            ]
          ]
        ]
      ]
    ]

begins_within : (size at len : ℕ) (b c : Bool) → (ltb size (at + len) || b || c) ≡ false → at ≤ size
begins_within size at len b c h = ground arith

pub rr_action-Goes :
    (msg : Bytes) (type : ℕ) (fqdn : Bytes) (r : Rr)
    → EndsDot r.aname
    → Goes (rr_action msg type fqdn r)
unfolding rr_action
rr_action-Goes msg type fqdn r e =
    elim (Bool-cases
      (ltb (length msg) (r.at + r.rdlen) || not (r.qclass == htons 1) || r.rdlen == 0)) [
        | inl bad ↦ rw (rr_action, bad) tt
        | inr fine ↦
            let inside : r.at ≤ length msg =
              begins_within (length msg) r.at r.rdlen (not (r.qclass == htons 1)) (r.rdlen == 0)
                fine in
            elim (Qname-cases (host2qname r.aname)) [
              | inl f ↦ rw (rr_action, fine, f) tt
              | inr (inl (q, f)) ↦ rw (rr_action, fine, f) (type_action-Goes msg type fqdn r inside)
              | inr (inr f) ↦ absurd (host2qname-ends r.aname e f)
            ]
      ]
