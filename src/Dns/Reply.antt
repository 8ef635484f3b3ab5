-- ===== src/Dns/Reply.antt =====
-- `dnshttps::parse_rfc8484` of src/dns/dnshttps.cc, on a little-endian host. The map of answers is
-- the list of its values: the callers hand over an empty one, and it is filled at 0, 1, 2, ….
-- The branch under `if (false)` is left out, as the compiler leaves it out.
pub mod Actions
pub mod Records
pub mod Sound
pub mod Chunks
pub mod Goes
pub mod Total
pub mod Addresses
use hcpp.Common.{
  ℕ, zero, suc, ◌+◌, ◌-◌, ◌*◌, ◌/◌, ◌%◌, ◌^◌, Bool, true, false, not, ◌&&◌, ◌||◌, List, [], ◌∷◌,
  ◌++◌, Option, none, some, Bytes, length, take, drop, get_or, ltb, leb, ◌==◌, if◌then◌else◌, find,
  equal, codes, to_string, strtoul,
}
use hcpp.Dns.Name.{Qname, overlong, qname, host2qname, Host, malformed, host, qname2host, lcs, dot}
use hcpp.Dns.Name
use hcpp.Dns.Query.{load16, htons}

-- `answer_t`; the type and the class are kept as they stand in memory.
pub record Answer : Type 0 where
  pub name : Bytes
  pub qtype : ℕ
  pub qclass : ℕ
  pub ttl : ℕ
  pub rdata : Bytes

-- -1, 0 and 1.
pub data Ret : Type 0 where
  failed no_answer answered : Ret

pub record Parsed : Type 0 where
  pub ret : Ret
  pub answers : List Answer

abbrev pub dns_type_a : ℕ
dns_type_a = 1

abbrev pub dns_type_ns : ℕ
dns_type_ns = 2

abbrev pub dns_type_cname : ℕ
dns_type_cname = 5

abbrev pub dns_type_mx : ℕ
dns_type_mx = 15

abbrev pub dns_type_aaaa : ℕ
dns_type_aaaa = 28

unfoldable pub read16 : Bytes → ℕ → ℕ
unfolding load16
read16 msg i = load16 (get_or msg i 0) (get_or msg (i + 1) 0)

-- `ntohl` of the four bytes at `i`.
unfoldable pub read32 : Bytes → ℕ → ℕ
read32 msg i =
    get_or msg i 0 * 2 ^ 24
    + get_or msg (i + 1) 0 * 2 ^ 16
    + get_or msg (i + 2) 0 * 2 ^ 8
    + get_or msg (i + 3) 0

-- `if (sanas.back() == '.') sanas.remove_suffix(1);` (`back` of an empty name is undefined; it is
-- taken for no dot).
pub remove_dot : Bytes → Bytes
remove_dot [] = []
remove_dot (c ∷ []) = if c == dot then [] else c ∷ []
remove_dot (c ∷ d ∷ s) = c ∷ remove_dot (d ∷ s)

-- The numbers of a text with `sep` behind each.
pub numbers : ℕ → List ℕ → Bytes
numbers sep [] = []
numbers sep (n ∷ ns) = to_string n ++ (sep ∷ numbers sep ns)

-- `pop_back`
pub pop_back : Bytes → Bytes
pop_back [] = []
pop_back (c ∷ []) = []
pop_back (c ∷ d ∷ s) = c ∷ pop_back (d ∷ s)

-- The eight 16-bit words of an IPv6 address as they stand in memory.
words : Bytes → List ℕ
unfolding load16
words (a ∷ b ∷ s) = load16 a b ∷ words s
words _ = []

-- One resource record, its fields taken out of the message. `at` is where its data begins.
pub record Rr : Type 0 where
  pub aname : Bytes
  pub qtype : ℕ
  pub qclass : ℕ
  pub ttl : ℕ
  pub rdlen : ℕ
  pub at : ℕ

-- What becomes of a record: -1, a name routine that does not return, or the answers that are added
-- and whether they count.
pub data Action : Type 0 where
  refuse stuck : Action
  add : List Answer → Bool → Action

unfoldable pub answer_of : Rr → Bytes → Answer
unfolding remove_dot
answer_of r rdata = record {
  name = remove_dot r.aname;
  qtype = r.qtype;
  qclass = r.qclass;
  ttl = r.ttl;
  rdata = rdata;
}

-- The `CNAME` case: the target's name, decompressed and encoded again.
unfoldable pub cname_action : Bytes → Rr → Action
cname_action msg r = elim (qname2host msg r.at) [
  | malformed ↦ refuse
  | Host.unfinished ↦ stuck
  | host n cname ↦ elim (n == 0) [
    | true ↦ refuse
    | false ↦ elim (host2qname cname) [
      | overlong ↦ refuse
      | Qname.unfinished ↦ stuck
      | qname q ↦ add (answer_of r q ∷ []) false
    ]
  ]
]

-- The chain of cases on the type of a record.
unfoldable pub type_action : Bytes → ℕ → Bytes → Rr → Action
unfolding cname_action answer_of numbers pop_back words
type_action msg type fqdn r =
    if r.qtype == htons dns_type_a && equal (lcs r.aname) fqdn
    then (if not (r.rdlen == 4)
        then refuse
        else add (answer_of r (pop_back (numbers dot (take 4 (drop r.at msg)))) ∷ []) true)
    else if r.qtype == htons dns_type_aaaa && equal (lcs r.aname) fqdn
    then (if not (r.rdlen == 16)
        then refuse
        else add (answer_of r (numbers b':' (words (take 16 (drop r.at msg)))) ∷ []) true)
    else if r.qtype == htons dns_type_cname
    then cname_action msg r
    else if r.qtype == htons dns_type_ns && r.qtype == type
    then add (answer_of r (take r.rdlen (drop r.at msg)) ∷ []) true
    else if r.qtype == htons dns_type_mx && r.qtype == type
    then add (answer_of r (take r.rdlen (drop r.at msg)) ∷ []) true
    else add [] false

-- The fields of the record at `idx`, whose name took `n` bytes.
unfoldable pub rr_at : Bytes → ℕ → ℕ → Bytes → Rr
unfolding read16 read32
rr_at msg idx n aname = record {
  aname = aname;
  qtype = read16 msg (idx + n);
  qclass = read16 msg (idx + n + 2);
  ttl = read32 msg (idx + n + 4);
  rdlen = htons (read16 msg (idx + n + 8));
  at = idx + n + 10;
}

-- A record whose data stands in the message, of class IN.
unfoldable pub rr_action : Bytes → ℕ → Bytes → Rr → Action
unfolding type_action
rr_action msg type fqdn r =
    if ltb (length msg) (r.at + r.rdlen) || not (r.qclass == htons 1) || r.rdlen == 0
    then refuse
    else elim (host2qname r.aname) [
      | overlong ↦ refuse
      | Qname.unfinished ↦ stuck
      | qname q ↦ type_action msg type fqdn r
    ]

-- The loop over the records; `none` if a name routine does not return, or the fuel runs out.
pub answers_from : ℕ → Bytes → ℕ → Bytes → ℕ → List Answer → Bool → Option Parsed
answers_from zero msg type fqdn idx out has = none
answers_from (suc fuel) msg type fqdn idx out has = elim (leb (length msg) idx) [
  | true ↦ some (record { ret = if has then answered else no_answer; answers = out })
  | false ↦ elim (qname2host msg idx) [
    | malformed ↦ some (record { ret = failed; answers = out })
    | Host.unfinished ↦ none
    | host n aname ↦ elim (leb (length msg) (idx + n + 10)) [
      | true ↦ some (record { ret = failed; answers = out })
      | false ↦ elim (rr_action msg type fqdn (rr_at msg idx n aname)) [
        | refuse ↦ some (record { ret = failed; answers = out })
        | stuck ↦ none
        | add new counts ↦
            answers_from fuel msg type fqdn
              ((rr_at msg idx n aname).at + (rr_at msg idx n aname).rdlen) (out ++ new)
              (has || counts)
      ]
    ]
  ]
]

abbrev pub header_size : ℕ
header_size = 12

abbrev failure : Option Parsed
failure = some (record { ret = failed; answers = [] })

-- From the check of the message's size on.
unfoldable pub parse_message : Bytes → ℕ → Bytes → Option Parsed
unfolding answers_from
parse_message name type msg =
    if ltb (length msg) (header_size + 5)
    then failure
    else if not (get_or msg 2 0 / 128 == 1)
    then failure
    else if not (get_or msg 3 0 % 16 == 0)
    then failure
    else elim (qname2host msg header_size) [
      | malformed ↦ failure
      | Host.unfinished ↦ none
      | host n tmp ↦
          if n == 0 || leb (length msg) (header_size + n + 4)
          then failure
          else if not (equal (lcs (name ++ (dot ∷ []))) (lcs tmp))
          then failure
          else answers_from (length msg) msg type (lcs tmp) (header_size + n + 4) [] false
    ]

pub crlf : Bytes
crlf = b'\r' ∷ b'\n' ∷ []

-- What the loop over the chunks leaves: nothing within the fuel, -1, or the message.
pub data Chunked : Type 0 where
  unfinished refused : Chunked
  message : Bytes → Chunked

-- The bytes of a chunk in front of those that follow.
pub chunk_before : Bytes → Chunked → Chunked
chunk_before s unfinished = unfinished
chunk_before s refused = refused
chunk_before s (message rest) = message (s ++ rest)

-- The chunked body from `idx` on.
pub chunks : ℕ → Bytes → ℕ → Chunked
unfolding crlf chunk_before
chunks zero reply idx = unfinished
chunks (suc fuel) reply idx = elim (find (drop idx reply) crlf) [
  | none ↦ refused
  | some n ↦
      let nl = idx + n in
      let cl = strtoul 16 (drop idx reply) in
      elim (cl == 0) [
        | true ↦ message []
        | false ↦ elim (ltb 65535 cl || ltb (length reply) (nl + 2 + cl + 2)) [
          | true ↦ refused
          | false ↦
              chunk_before (take cl (drop (nl + 2) reply)) (chunks fuel reply (nl + 2 + cl + 2))
        ]
      ]
]

-- The message in the reply: what stands from `content_idx` on, or the chunks behind the header.
unfoldable pub dns_reply : Bytes → ℕ → ℕ → Chunked
unfolding chunks
dns_reply reply content_idx cl =
    if ltb 0 cl
    then (if ltb (length (drop content_idx reply)) cl
        then refused
        else message (drop content_idx reply))
    else elim (find reply (codes "\r\n\r\n")) [
      | none ↦ refused
      | some i ↦ if leb (length reply) (i + 4) then refused else chunks (length reply) reply (i + 4)
    ]

-- `none` if one of its loops is still running when its fuel ends.
unfoldable pub parse_rfc8484 : Bytes → ℕ → Bytes → ℕ → ℕ → Option Parsed
unfolding dns_reply parse_message
parse_rfc8484 name type reply content_idx cl = elim (dns_reply reply content_idx cl) [
  | unfinished ↦ none
  | refused ↦ failure
  | message msg ↦ parse_message name type msg
]
