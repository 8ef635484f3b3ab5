-- ===== src/Dns/Reply/Records.antt =====
-- The bytes of a record of type A, and what the parser makes of them.
use hcpp.Common.{
  ℕ, ◌+◌, ◌-◌, ◌*◌, ◌^◌, ◌≤◌, ◌<◌, true, false, List, [], ◌∷◌, ◌++◌, ◌≡◌, inr, refl, ap, subst, ◌∙◌,
  arith, Bytes, length, take, drop, ltb, equal_self, length-append, drop-append_ge,
}
use hcpp.Dns.Name.{qname, host2qname, lcs, dot}
use hcpp.Dns.Name.Wire.{AreLabels, wire, dotted, get_or-append}
use hcpp.Dns.Name.Encode.{host2qname-dotted}
use hcpp.Dns.Name.Decode.{dots}
use hcpp.Dns.Query.{htons}
use hcpp.Dns.Reply.{
  Answer, Rr, add, remove_dot, numbers, pop_back, answer_of, type_action, rr_action, rr_at,
}

-- An A record: four bytes each of time to live and of address.
pub record V4 : Type 0 where
  pub t3 : ℕ
  pub t2 : ℕ
  pub t1 : ℕ
  pub t0 : ℕ
  pub a : ℕ
  pub b : ℕ
  pub c : ℕ
  pub d : ℕ

-- On the wire: a pointer to byte 12, type A, class IN, time to live, length 4, address.
abbrev pub rr_bytes : V4 → Bytes → Bytes
rr_bytes v rest =
    192 ∷ 12 ∷ 0 ∷ 1 ∷ 0 ∷ 1 ∷ v.t3 ∷ v.t2 ∷ v.t1 ∷ v.t0 ∷ 0 ∷ 4 ∷ v.a ∷ v.b ∷ v.c ∷ v.d ∷ rest

abbrev pub all_rr_bytes : List V4 → Bytes
all_rr_bytes [] = []
all_rr_bytes (v ∷ vs) = rr_bytes v (all_rr_bytes vs)

-- The answer that stands for a record: the address in text, `a.b.c.d`.
abbrev pub v4_answer : List Bytes → V4 → Answer
v4_answer ls v = record {
  name = remove_dot (dots ls);
  qtype = 256;
  qclass = 256;
  ttl = v.t3 * 2 ^ 24 + v.t2 * 2 ^ 16 + v.t1 * 2 ^ 8 + v.t0;
  rdata = pop_back (numbers dot (v.a ∷ v.b ∷ v.c ∷ v.d ∷ []));
}

dotted-dots : (ls : List Bytes) → dotted (dot ∷ []) ls ≡ dots ls
unfolding dotted dots
dotted-dots [] = refl
dotted-dots (l ∷ []) = refl
dotted-dots (l ∷ k ∷ ls) = ap (λ r. l ++ (dot ∷ r)) (dotted-dots (k ∷ ls))

pub rr_at-v4 :
    (pre rest aname : Bytes) (v : V4)
    → rr_at (pre ++ rr_bytes v rest) (length pre) 2 aname ≡ record {
      aname = aname;
      qtype = 256;
      qclass = 256;
      ttl = v.t3 * 2 ^ 24 + v.t2 * 2 ^ 16 + v.t1 * 2 ^ 8 + v.t0;
      rdlen = 4;
      at = length pre + 12;
    }
unfolding rr_at htons
rr_at-v4 pre rest aname v =
    let byte = λ (k n : ℕ) (e : n ≡ length pre + k). get_or-append pre (rr_bytes v rest) k n e in
    ground (
      arith,
      byte 2 (length pre + 2) refl,
      byte 3 (length pre + 2 + 1) (omega arith),
      byte 4 (length pre + 2 + 2) (omega arith),
      byte 5 (length pre + 2 + 2 + 1) (omega arith),
      byte 6 (length pre + 2 + 4) (omega arith),
      byte 7 (length pre + 2 + 4 + 1) (omega arith),
      byte 8 (length pre + 2 + 4 + 2) (omega arith),
      byte 9 (length pre + 2 + 4 + 3) (omega arith),
      byte 10 (length pre + 2 + 8) (omega arith),
      byte 11 (length pre + 2 + 8 + 1) (omega arith),
    )

-- A message: the header, the question for `ls` of type A, and the records.
abbrev pub question_bytes : Bytes
question_bytes = 0 ∷ 1 ∷ 0 ∷ 1 ∷ []

abbrev pub reply_bytes : Bytes → List Bytes → List V4 → Bytes
reply_bytes head ls vs = head ++ (wire ls ++ (question_bytes ++ all_rr_bytes vs))

-- The fields of a record whose data begins at `k`.
abbrev fields_of : V4 → List Bytes → ℕ → Rr
fields_of v ls k = record {
  aname = dots ls;
  qtype = 256;
  qclass = 256;
  ttl = v.t3 * 2 ^ 24 + v.t2 * 2 ^ 16 + v.t1 * 2 ^ 8 + v.t0;
  rdlen = 4;
  at = k;
}

type_action-v4 :
    (msg : Bytes) (v : V4) (ls : List Bytes) (type k : ℕ)
    → take 4 (drop k msg) ≡ v.a ∷ v.b ∷ v.c ∷ v.d ∷ []
    → type_action msg type (lcs (dots ls)) (fields_of v ls k) ≡ add (v4_answer ls v ∷ []) true
unfolding type_action answer_of htons
type_action-v4 msg v ls type k address = rw (equal_self (lcs (dots ls)), address) refl

pub rr_action-v4 :
    (pre rest : Bytes) (v : V4) (ls : List Bytes) (type : ℕ)
    → AreLabels ls
    → 0 < length ls
    → length (dots ls) ≤ 255
    → rr_action
        (pre ++ rr_bytes v rest)
        type
        (lcs (dots ls))
        (rr_at (pre ++ rr_bytes v rest) (length pre) 2 (dots ls))
      ≡ add (v4_answer ls v ∷ []) true
unfolding rr_action htons
rr_action-v4 pre rest v ls type a n h =
    let msg = pre ++ rr_bytes v rest in
    let size = length-append pre (rr_bytes v rest) in
    let fits : ltb (length msg) (length pre + 12 + 4) ≡ false = ground arith in
    let encoded : host2qname (dots ls) ≡ qname (wire ls) =
      subst (λ t. host2qname t ≡ qname (wire ls)) (dotted-dots ls)
        (host2qname-dotted (dot ∷ []) ls a n (inr refl)
          (omega (arith, ap length (dotted-dots ls)))) in
    let address : take 4 (drop (length pre + 12) msg) ≡ v.a ∷ v.b ∷ v.c ∷ v.d ∷ [] = ap (take 4) (
      drop-append_ge (length pre + 12) pre (rr_bytes v rest) (omega arith)
      ∙ ap (λ k. drop k (rr_bytes v rest)) {x = length pre + 12 - length pre} {y = 12}
          (omega arith)) in
    let checked : rr_action msg type (lcs (dots ls)) (fields_of v ls (length pre + 12))
        ≡ add (v4_answer ls v ∷ []) true =
      rw (fits, encoded) (type_action-v4 msg v ls type (length pre + 12) address) in
    ap (rr_action msg type (lcs (dots ls))) (rr_at-v4 pre rest (dots ls) v) ∙ checked

-- In a message with the question at byte 12, the loop takes every record that is left.
