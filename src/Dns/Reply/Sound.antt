-- ===== src/Dns/Reply/Sound.antt =====
-- The answers of `parse_rfc8484` of src/dns/dnshttps.cc on any reply: which can be trusted.
use hcpp.Common.{
  ℕ, zero, suc, ◌+◌, ◌/◌, ◌%◌, Bool, true, false, not, ◌||◌, List, [], ◌∷◌, ◌++◌, Option, none,
  some, ◌≡◌, inl, inr, subst, Bytes, length, get_or, ltb, leb, ◌==◌, if◌then◌else◌, equal,
  equal_iff, Bool-cases,
}
use hcpp.Dns.Name.{Host, malformed, host, qname2host, lcs, dot}
use hcpp.Dns.Reply.{
  Answer, failed, Parsed, Action, refuse, stuck, add, rr_action, rr_at, answers_from, parse_message,
  header_size,
}
use hcpp.Dns.Reply.Actions.{All-append, Adds, All, IsTrusted, rr_action-Adds}

abbrev Trusts : Bytes → Bytes → Option Parsed → Type 0
Trusts name msg none = Unit {0}
Trusts name msg (some p) = All (IsTrusted name msg) p.answers

module _ (name msg : Bytes) (type : ℕ) where
  fqdn : Bytes
  fqdn = lcs (name ++ (dot ∷ []))

  -- The rest of a round, once its action is known.
  goes_on : ℕ → List Answer → Bool → ℕ → Action → Option Parsed
  unfolding fqdn
  goes_on fuel out has next act = elim act [
    | refuse ↦ some (record { ret = failed; answers = out })
    | stuck ↦ none
    | add new counts ↦ answers_from fuel msg type fqdn next (out ++ new) (has || counts)
  ]

  goes_on-Trusts :
      (fuel next : ℕ) (out : List Answer) (has : Bool) (act : Action)
      → All (IsTrusted name msg) out
      → Adds name msg act
      → ((new : List Answer) (counts : Bool)
          → All (IsTrusted name msg) (out ++ new)
          → Trusts name msg (answers_from fuel msg type fqdn next (out ++ new) (has || counts)))
      → Trusts name msg (goes_on fuel out has next act)
  unfolding goes_on
  goes_on-Trusts fuel next out has refuse t a again = t
  goes_on-Trusts fuel next out has stuck t a again = tt
  goes_on-Trusts fuel next out has (add new counts) t a again =
      again new counts (All-append _ out new a t)

  answers_from-Trusts :
      (fuel idx : ℕ) (out : List Answer) (has : Bool)
      → All (IsTrusted name msg) out
      → Trusts name msg (answers_from fuel msg type fqdn idx out has)
  unfolding answers_from goes_on fqdn
  answers_from-Trusts zero idx out has t = tt
  answers_from-Trusts (suc fuel) idx out has t = elim (Bool-cases (leb (length msg) idx)) [
    | inl over ↦ rw (over, answers_from) t
    | inr more ↦
        rw (more, answers_from)
          (of_name (λ next new counts. answers_from-Trusts fuel next (out ++ new) (has || counts))
            (qname2host msg idx))
  ]
    where
      of_name :
          ((next : ℕ) (new : List Answer) (counts : Bool)
            → All (IsTrusted name msg) (out ++ new)
            → Trusts name msg (answers_from fuel msg type fqdn next (out ++ new) (has || counts)))
          → (h : Host)
          → Trusts name msg (elim h [
            | malformed ↦ some (record { ret = failed; answers = out })
            | Host.unfinished ↦ none
            | host n aname ↦ elim (leb (length msg) (idx + n + 10)) [
              | true ↦ some (record { ret = failed; answers = out })
              | false ↦
                  goes_on fuel out has
                    ((rr_at msg idx n aname).at + (rr_at msg idx n aname).rdlen)
                    (rr_action msg type fqdn (rr_at msg idx n aname))
            ]
          ])
      of_name again malformed = t
      of_name again Host.unfinished = tt
      of_name again (host n aname) = elim (Bool-cases (leb (length msg) (idx + n + 10))) [
        | inl short ↦ rw short t
        | inr long ↦
            let r = rr_at msg idx n aname in
            rw long (
              goes_on-Trusts fuel (r.at + r.rdlen) out has (rr_action msg type fqdn r) t
                (rr_action-Adds name msg type r) (again (r.at + r.rdlen)))
      ]

  -- The checks of the question, once its name is read.
  question-Trusts :
      (h : Host)
      → Trusts name msg (elim h [
        | malformed ↦ some (record { ret = failed; answers = [] })
        | Host.unfinished ↦ none
        | host n tmp ↦
            if n == 0 || leb (length msg) (header_size + n + 4)
            then some (record { ret = failed; answers = [] })
            else if not (equal (lcs (name ++ (dot ∷ []))) (lcs tmp))
            then some (record { ret = failed; answers = [] })
            else answers_from (length msg) msg type (lcs tmp) (header_size + n + 4) [] false
      ])
  question-Trusts malformed = tt
  question-Trusts Host.unfinished = tt
  question-Trusts (host n tmp) =
      elim (Bool-cases (n == 0 || leb (length msg) (header_size + n + 4))) [
        | inl short ↦ rw short tt
        | inr long ↦ rw long (elim (Bool-cases (equal (lcs (name ++ (dot ∷ []))) (lcs tmp))) [
          | inr other ↦ rw other tt
          | inl same ↦
              rw (same, ← (equal_iff (lcs (name ++ (dot ∷ []))) (lcs tmp)).0 same)
                (unfold fqdn in answers_from-Trusts (length msg) (header_size + n + 4) [] false tt)
        ])
      ]

  parse_message-Trusts : Trusts name msg (parse_message name type msg)
  unfolding parse_message
  parse_message-Trusts = elim (Bool-cases (ltb (length msg) (header_size + 5))) [
    | inl short ↦ rw short tt
    | inr long ↦ rw long (elim (Bool-cases (get_or msg 2 0 / 128 == 1)) [
      | inr query ↦ rw query tt
      | inl reply ↦ rw reply (elim (Bool-cases (get_or msg 3 0 % 16 == 0)) [
        | inr wrong ↦ rw wrong tt
        | inl fine ↦ rw fine (question-Trusts (qname2host msg header_size))
      ])
    ])
  ]

-- Whatever the bytes of a reply are, if the parser returns, then every answer of type A in its
-- result belongs to the name that was asked, up to upper and lower case, and its text is made of
-- four bytes that stand in the message.
pub parse_message-IsTrusted :
    (name msg : Bytes) (type : ℕ) {p : Parsed}
    → parse_message name type msg ≡ some p
    → All (IsTrusted name msg) p.answers
parse_message-IsTrusted name msg type e =
    subst (Trusts name msg) e (parse_message-Trusts name msg type)
