-- ===== src/Dns/Reply/Total.antt =====
-- When `parse_rfc8484` of src/dns/dnshttps.cc returns.
use hcpp.Common.{
  ℕ, zero, suc, ◌+◌, ◌-◌, ◌%◌, ◌/◌, ◌≤◌, ◌<◌, Bool, false, not, ◌||◌, List, [], ◌∷◌, ◌++◌, ◌≡◌, ◌≢◌,
  ◌⊎◌, inl, inr, refl, arith, Bytes, length, get_or, ltb, leb, ◌==◌, if◌then◌else◌, Bool-cases,
  Option, none, some, equal,
}
use hcpp.Dns.Name.{dot, qname2host, lcs}
use hcpp.Dns.Name.Decode.{qname2host-ends}
use hcpp.Dns.Reply.Chunks.{Chunked-cases, dns_reply-ends}
use hcpp.Dns.Reply.{
  Rr, Action, refuse, stuck, add, Answer, Parsed, failed, rr_action, rr_at, answers_from,
  parse_message, header_size, dns_reply, parse_rfc8484,
}
use hcpp.Dns.Reply.Goes.{Host-cases, Goes, named, rr_action-Goes}

before_end : (size idx : ℕ) → leb size idx ≡ false → idx ≤ size
before_end size idx h = ground arith

less_left :
    (size idx n at len fuel : ℕ)
    → leb size idx ≡ false
    → at ≡ idx + n + 10
    → size - idx < suc fuel
    → size - (at + len) < fuel
less_left size idx n at len fuel more e h = ground (arith, e)

abbrev Returns : Option Parsed → Type 0
Returns none = ⊥
Returns (some p) = Unit {0}

Action-cases :
    (a : Action)
    → Goes a
    → (a ≡ refuse) ⊎ ((new : List Answer) × (counts : Bool) × (a ≡ add new counts))
Action-cases refuse g = inl refl
Action-cases stuck g = absurd g
Action-cases (add new counts) g = inr (new, counts, refl)

answers_from-Returns :
    (fuel : ℕ) (msg : Bytes) (type : ℕ) (fqdn : Bytes) (idx : ℕ) (out : List Answer) (has : Bool)
    → length msg - idx < fuel
    → Returns (answers_from fuel msg type fqdn idx out has)
unfolding answers_from
answers_from-Returns zero msg type fqdn idx out has h = absurd (omega arith)
answers_from-Returns (suc fuel) msg type fqdn idx out has h =
    elim (Bool-cases (leb (length msg) idx)) [
      | inl done ↦ rw (answers_from, done) tt
      | inr more ↦ elim (Host-cases (qname2host msg idx)) [
        | inl e ↦ rw (answers_from, more, e) tt
        | inr (inr e) ↦ absurd (qname2host-ends msg idx (before_end (length msg) idx more) e)
        | inr (inl (n, s, e)) ↦ elim (Bool-cases (leb (length msg) (idx + n + 10))) [
          | inl short ↦ rw (answers_from, more, e, short) tt
          | inr long ↦
              let r : Rr = rr_at msg idx n s in
              elim (Action-cases (rr_action msg type fqdn r)
                (rr_action-Goes msg type fqdn r (unfold rr_at in named msg s idx n e))) [
                  | inl f ↦ rw (answers_from, more, e, long, f) tt
                  | inr (new, counts, f) ↦
                      rw (answers_from, more, e, long, f)
                        (answers_from-Returns fuel msg type fqdn (r.at + r.rdlen) (out ++ new)
                          (has || counts)
                          (less_left (length msg) idx n r.at r.rdlen fuel more
                            (unfold rr_at in refl) h))
                ]
        ]
      ]
    ]

room_for_header : (size : ℕ) → ltb size (header_size + 5) ≡ false → header_size ≤ size
room_for_header size h = ground arith

room_for_question :
    (size n : ℕ)
    → (n == 0 || leb size (header_size + n + 4)) ≡ false
    → size - (header_size + n + 4) < size
room_for_question size n h = ground arith

question-Returns :
    (name : Bytes) (type : ℕ) (msg : Bytes) (n : ℕ) (tmp : Bytes)
    → Returns (
        if n == 0 || leb (length msg) (header_size + n + 4)
        then some (record { ret = failed; answers = [] })
        else if not (equal (lcs (name ++ (dot ∷ []))) (lcs tmp))
        then some (record { ret = failed; answers = [] })
        else answers_from (length msg) msg type (lcs tmp) (header_size + n + 4) [] false)
question-Returns name type msg n tmp =
    elim (Bool-cases (n == 0 || leb (length msg) (header_size + n + 4))) [
      | inl short ↦ rw short tt
      | inr long ↦ elim (Bool-cases (not (equal (lcs (name ++ (dot ∷ []))) (lcs tmp)))) [
        | inl other ↦ rw (long, other) tt
        | inr same ↦
            rw (long, same)
              (answers_from-Returns (length msg) msg type (lcs tmp) (header_size + n + 4) [] false
                (room_for_question (length msg) n long))
      ]
    ]

parse_message-Returns :
    (name : Bytes) (type : ℕ) (msg : Bytes) → Returns (parse_message name type msg)
unfolding parse_message
parse_message-Returns name type msg = elim (Bool-cases (ltb (length msg) (header_size + 5))) [
  | inl short ↦ rw (parse_message, short) tt
  | inr long ↦ elim (Bool-cases (not (get_or msg 2 0 / 128 == 1))) [
    | inl query ↦ rw (parse_message, long, query) tt
    | inr reply ↦ elim (Bool-cases (not (get_or msg 3 0 % 16 == 0))) [
      | inl wrong ↦ rw (parse_message, long, reply, wrong) tt
      | inr right ↦ elim (Host-cases (qname2host msg header_size)) [
        | inl e ↦ rw (parse_message, long, reply, right, e) tt
        | inr (inr e) ↦
            absurd (qname2host-ends msg header_size (room_for_header (length msg) long) e)
        | inr (inl (n, tmp, e)) ↦
            rw (parse_message, long, reply, right, e) (question-Returns name type msg n tmp)
      ]
    ]
  ]
]

Returns-some : (p : Option Parsed) → Returns p → p ≢ none
Returns-some none h e = h
Returns-some (some p) h e = cc

-- `parse_rfc8484` returns on every name, type and reply, whatever the reply holds: the loop over
-- chunks, the loop over records and the name routines that they run end within the fuel that they
-- are given, each of which would give `none` otherwise.
pub parse_rfc8484-returns :
    (name : Bytes) (type : ℕ) (reply : Bytes) (content_idx cl : ℕ)
    → parse_rfc8484 name type reply content_idx cl ≢ none
unfolding parse_rfc8484
parse_rfc8484-returns name type reply content_idx cl =
    elim (Chunked-cases (dns_reply reply content_idx cl)) [
      | inl e ↦ absurd (dns_reply-ends reply content_idx cl e)
      | inr (inl e) ↦ rw (parse_rfc8484, e) (Returns-some _ tt)
      | inr (inr (msg, e)) ↦
          rw (parse_rfc8484, e) (Returns-some _ (parse_message-Returns name type msg))
    ]
