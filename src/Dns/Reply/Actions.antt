-- ===== src/Dns/Reply/Actions.antt =====
-- What the cases on the type of a record do to the answers.
use hcpp.Common.{
  ℕ, ◌+◌, ◌≤◌, not, ◌&&◌, ◌||◌, List, [], ◌∷◌, ◌++◌, ◌≡◌, ◌≢◌, inl, inr, refl, arith, Bytes, length,
  take, drop, ltb, ◌==◌, equal, equal_iff, Bool-cases,
}
use hcpp.Dns.Name.{Qname, overlong, qname, host2qname, lcs, tolower, dot}
use hcpp.Dns.Query.{htons}
use hcpp.Dns.Reply.{
  Answer, Rr, Action, refuse, stuck, add, remove_dot, numbers, pop_back, answer_of, cname_action,
  type_action, rr_action,
}

abbrev pub All {ℓ κ} : {A : Type ℓ} → (A → Type κ) → List A → Type κ
All P [] = Unit
All P (x ∷ xs) = P x × All P xs

pub All-append {ℓ κ} :
    {A : Type ℓ} (P : A → Type κ) (xs ys : List A) → All P ys → All P xs → All P (xs ++ ys)
All-append P [] ys behind t = behind
All-append P (x ∷ xs) ys behind t = (t.0, All-append P xs ys behind t.1)

-- An address that a message gives for a name: it belongs to that name, up to upper and lower case,
-- and is made of four bytes of the message.
pub record IsAddress (name msg : Bytes) (a : Answer) : Type 0 where
  pub same_name : lcs a.name ≡ lcs name
  pub from : ℕ
  pub inside : from + 4 ≤ length msg
  pub made : a.rdata ≡ pop_back (numbers dot (take 4 (drop from msg)))

abbrev pub IsTrusted : Bytes → Bytes → Answer → Type 0
IsTrusted name msg a = a.qtype ≡ 256 → IsAddress name msg a

lcs-remove_dot :
    (aname name : Bytes) → lcs aname ≡ lcs (name ++ (dot ∷ [])) → lcs (remove_dot aname) ≡ lcs name
unfolding lcs remove_dot tolower
lcs-remove_dot [] [] h = refl
lcs-remove_dot [] (d ∷ ds) h = cc
lcs-remove_dot (c ∷ []) [] h = ground arith
lcs-remove_dot (c ∷ []) (d ∷ []) h = cc
lcs-remove_dot (c ∷ []) (d ∷ e ∷ ds) h = cc
lcs-remove_dot (c ∷ e ∷ cs) [] h = cc
lcs-remove_dot (c ∷ e ∷ cs) (d ∷ ds) h = ground (arith, lcs-remove_dot (e ∷ cs) ds)

abbrev pub Adds : Bytes → Bytes → Action → Type 0
Adds name msg refuse = Unit {0}
Adds name msg stuck = Unit {0}
Adds name msg (add new counts) = All (IsTrusted name msg) new

cname_action-Adds : (name msg : Bytes) (r : Rr) → r.qtype ≢ 256 → Adds name msg (cname_action msg r)
unfolding cname_action answer_of
cname_action-Adds name msg r h = ground arith

not_address :
    (name msg rdata : Bytes) (r : Rr) → r.qtype ≢ 256 → IsTrusted name msg (answer_of r rdata)
unfolding answer_of
not_address name msg rdata r h = λ e. absurd (h e)

type_action-Adds :
    (name msg : Bytes) (type : ℕ) (r : Rr)
    → r.at + r.rdlen ≤ length msg
    → Adds name msg (type_action msg type (lcs (name ++ (dot ∷ []))) r)
unfolding type_action htons
type_action-Adds name msg type r inside =
    let fqdn = lcs (name ++ (dot ∷ [])) in
    let named = equal (lcs r.aname) fqdn in
    let is = equal_iff (lcs r.aname) fqdn in
    elim (Bool-cases (r.qtype == 256 && named)) [
      | inl a ↦ rw a (elim (Bool-cases (r.rdlen == 4)) [
        | inr other ↦ rw other tt
        | inl four ↦ rw four (
          (λ _. record {
            same_name = unfold answer_of in lcs-remove_dot r.aname name (ground (arith, is));
            from = r.at;
            inside = ground arith;
            made = unfold answer_of in refl;
          }),
          tt,
        )
      ])
      | inr a ↦ rw a (elim (Bool-cases (r.qtype == 7168 && named)) [
        | inl aaaa ↦ rw aaaa (elim (Bool-cases (r.rdlen == 16)) [
          | inr other ↦ rw other tt
          | inl sixteen ↦ rw sixteen (not_address name msg _ r (ground arith), tt)
        ])
        | inr aaaa ↦ rw aaaa (elim (Bool-cases (r.qtype == 1280)) [
          | inl cname ↦ rw cname (cname_action-Adds name msg r (ground arith))
          | inr cname ↦ rw cname (elim (Bool-cases (r.qtype == 512 && r.qtype == type)) [
            | inl ns ↦ rw ns (not_address name msg _ r (ground arith), tt)
            | inr ns ↦ rw ns (elim (Bool-cases (r.qtype == 3840 && r.qtype == type)) [
              | inl mx ↦ rw mx (not_address name msg _ r (ground arith), tt)
              | inr mx ↦ rw mx tt
            ])
          ])
        ])
      ])
    ]

pub rr_action-Adds :
    (name msg : Bytes) (type : ℕ) (r : Rr)
    → Adds name msg (rr_action msg type (lcs (name ++ (dot ∷ []))) r)
unfolding rr_action
rr_action-Adds name msg type r =
    elim (Bool-cases
      (ltb (length msg) (r.at + r.rdlen) || not (r.qclass == htons 1) || r.rdlen == 0)) [
        | inl bad ↦ rw bad tt
        | inr good ↦ rw good (of (ground arith) (host2qname r.aname))
      ]
  where
    of :
        r.at + r.rdlen ≤ length msg
        → (q : Qname)
        → Adds name msg (elim q [
          | overlong ↦ refuse
          | Qname.unfinished ↦ stuck
          | qname b ↦ type_action msg type (lcs (name ++ (dot ∷ []))) r
        ])
    of inside overlong = tt
    of inside Qname.unfinished = tt
    of inside (qname b) = type_action-Adds name msg type r inside

-- All answers of a result can be trusted.
