-- ===== src/Dns/Reply/Addresses.antt =====
-- `parse_rfc8484` of src/dns/dnshttps.cc on replies of the usual form: one question, and A records
-- that point back to it.
use hcpp.Common.{
  ℕ, zero, suc, ◌+◌, ◌*◌, ◌/◌, ◌%◌, ◌≤◌, ◌<◌, Bool, true, false, ◌||◌, List, [], ◌∷◌, ◌++◌, some,
  ◌≡◌, refl, sym, ap, ap₂, subst, ◌∙◌, arith, map, Bytes, length, drop, get_or, ltb, leb, ◌==◌,
  if◌then◌else◌, equal_self, length-append, append_assoc, append-nil, get_or-append_lt,
}
use hcpp.Dns.Name.{host, qname2host, lcs, dot}
use hcpp.Dns.Name.Wire.{AreLabels, wire}
use hcpp.Dns.Name.Decode.{dots, qname2host-wire, qname2host-pointer, length-dots}
use hcpp.Dns.Reply.{
  Answer, no_answer, answered, add, rr_action, rr_at, answers_from, parse_message, header_size,
}
use hcpp.Dns.Reply.Records.{
  V4, all_rr_bytes, question_bytes, reply_bytes, rr_action-v4, rr_at-v4, rr_bytes, v4_answer,
}

module _ (msg head behind : Bytes) (ls : List Bytes) (type : ℕ)
    (whole : msg ≡ head ++ (wire ls ++ behind)) (sized : length head ≡ 12) (a : AreLabels ls)
    (n : 0 < length ls) (h : length (dots ls) ≤ 255) where
  name_at :
      (pre rest : Bytes) (v : V4)
      → msg ≡ pre ++ rr_bytes v rest
      → 0 < length pre
      → qname2host msg (length pre) ≡ host 2 (dots ls)
  name_at pre rest v e p =
      let tail = drop 2 (rr_bytes v rest) in
      let pointed = ap (λ k. pre ++ (192 ∷ k ∷ tail)) sized in
      subst (λ m. qname2host m (length pre) ≡ host 2 (dots ls)) (pointed ∙ sym e)
        (qname2host-pointer pre tail head behind 192 ls (pointed ∙ sym e ∙ whole) (omega arith) p
          (omega arith) a n h)

  answers_from-v4 :
      (fuel : ℕ) (pre : Bytes) (vs : List V4) (out : List Answer) (has : Bool)
      → msg ≡ pre ++ all_rr_bytes vs
      → 0 < length pre
      → length vs < fuel
      → answers_from fuel msg type (lcs (dots ls)) (length pre) out has
        ≡ some (record {
          ret = if has || ltb 0 (length vs) then answered else no_answer;
          answers = out ++ map (v4_answer ls) vs;
        })
  unfolding answers_from
  answers_from-v4 zero pre vs out has e p f = absurd (omega arith)
  answers_from-v4 (suc fuel) pre [] out has e p f =
      let over : leb (length msg) (length pre) ≡ true =
        ground (arith, ap length e, length-append pre []) in
      rw (over, answers_from, append-nil out) (ground arith)
  answers_from-v4 (suc fuel) pre (v ∷ vs) out has e p f =
      let rest = all_rr_bytes vs in
      let size = length-append pre (rr_bytes v rest) in
      let more : leb (length msg) (length pre) ≡ false = ground (arith, ap length e) in
      let long : leb (length msg) (length pre + 2 + 10) ≡ false = ground (arith, ap length e) in
      let fields =
        subst
          (λ m.
            rr_at m (length pre) 2 (dots ls)
            ≡ rr_at (pre ++ rr_bytes v rest) (length pre) 2 (dots ls))
          (sym e) refl
        ∙ rr_at-v4 pre rest (dots ls) v in
      let acts : rr_action msg type (lcs (dots ls)) (rr_at msg (length pre) 2 (dots ls))
          ≡ add (v4_answer ls v ∷ []) true =
        subst
          (λ m.
            rr_action m type (lcs (dots ls)) (rr_at m (length pre) 2 (dots ls))
            ≡ add (v4_answer ls v ∷ []) true)
          (sym e) (rr_action-v4 pre rest v ls type a n h) in
      let pre' = pre ++ rr_bytes v [] in
      let next : (rr_at msg (length pre) 2 (dots ls)).at
            + (rr_at msg (length pre) 2 (dots ls)).rdlen
          ≡ length pre' =
        ground (
          arith,
          ap (λ r. r.at) fields,
          ap (λ r. r.rdlen) fields,
          length-append pre (rr_bytes v []),
        ) in
      rw (more, answers_from, name_at pre rest v e p, answers_from, long, acts, answers_from, next)
        (answers_from-v4 fuel pre' vs (out ++ (v4_answer ls v ∷ [])) (has || true)
            (e ∙ sym (append_assoc pre (rr_bytes v []) rest))
            (omega (arith, length-append pre (rr_bytes v []))) (omega arith)
          ∙ ap₂
              (λ b found.
                some (record { ret = if b then answered else no_answer; answers = found }))
              {x = has || true || ltb 0 (length vs)} {y = has || ltb 0 (suc (length vs))}
              (ground arith) (append_assoc out (v4_answer ls v ∷ []) (map (v4_answer ls) vs)))

length-all_rr_bytes : (vs : List V4) → length (all_rr_bytes vs) ≡ 16 * length vs
length-all_rr_bytes [] = refl
length-all_rr_bytes (v ∷ vs) = omega (arith, length-all_rr_bytes vs)

-- A message of a 12-byte header with the response flag and no error code, the question for well-
-- formed labels (a text of at most 255 bytes) that spell the asked name in any case, and one or
-- more A records that point back to the question, is parsed as answered, with exactly the
-- addresses of these records in their order.
pub parse_message-v4 :
    (head name : Bytes) (type : ℕ) (ls : List Bytes) (vs : List V4)
    → length head ≡ 12
    → get_or head 2 0 / 128 ≡ 1
    → get_or head 3 0 % 16 ≡ 0
    → lcs (name ++ (dot ∷ [])) ≡ lcs (dots ls)
    → AreLabels ls
    → 0 < length ls
    → length (dots ls) ≤ 255
    → 0 < length vs
    → parse_message name type (reply_bytes head ls vs)
      ≡ some (record { ret = answered; answers = map (v4_answer ls) vs })
unfolding parse_message
parse_message-v4 head name type ls vs sized response no_error same a n h some_record =
    let body = question_bytes ++ all_rr_bytes vs in
    let msg = reply_bytes head ls vs in
    let pre = head ++ (wire ls ++ question_bytes) in
    let size : length msg ≡ 12 + length (wire ls) + 4 + 16 * length vs = omega (
      arith,
      length-append head (wire ls ++ body),
      length-append (wire ls) body,
      length-all_rr_bytes vs,
    ) in
    let size' : length pre ≡ 12 + length (wire ls) + 4 = omega (
      arith,
      length-append head (wire ls ++ question_bytes),
      length-append (wire ls) question_bytes,
    ) in
    let long : ltb (length msg) (header_size + 5) ≡ false = ground arith in
    let flag : (get_or msg 2 0 / 128 == 1) ≡ true =
      ground (arith, get_or-append_lt head (wire ls ++ body) 2 0 (omega arith)) in
    let code : (get_or msg 3 0 % 16 == 0) ≡ true =
      ground (arith, get_or-append_lt head (wire ls ++ body) 3 0 (omega arith)) in
    let question : qname2host msg header_size ≡ host (length (wire ls)) (dots ls) =
      subst (λ k. qname2host msg k ≡ host (length (wire ls)) (dots ls)) sized
        (qname2host-wire head body ls a n h) in
    let room : (length (wire ls) == 0 || leb (length msg) (header_size + length (wire ls) + 4))
        ≡ false =
      ground (arith, length-dots ls) in
    let split : msg ≡ pre ++ all_rr_bytes vs =
      ap (λ t. head ++ t) (sym (append_assoc (wire ls) question_bytes (all_rr_bytes vs)))
      ∙ sym (append_assoc head (wire ls ++ question_bytes) (all_rr_bytes vs)) in
    rw (long, flag, code, question, room, same, equal_self (lcs (dots ls)))
      (ap (λ k. answers_from (length msg) msg type (lcs (dots ls)) k [] false)
          {x = header_size + length (wire ls) + 4} {y = length pre} (omega arith)
        ∙ answers_from-v4 msg head body ls type refl sized a n h (length msg) pre vs [] false split
            (omega arith) (omega arith)
        ∙ ap
            (λ b.
              some (record {
                ret = if b then answered else no_answer;
                answers = map (v4_answer ls) vs;
              }))
            {x = false || ltb 0 (length vs)} {y = true} (ground arith))
