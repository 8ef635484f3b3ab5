-- ===== src/Dns/Name.antt =====
-- Domain names in src/dns/dnshttps.cc: `host2qname`, `qname2host`, `valid_name` and `lcs`.
-- `char` is read as a byte; `uint8_t` wraps at 256.
pub mod Wire
pub mod Split
pub mod Counts
pub mod Encode
pub mod Decode
pub mod Gaps
pub mod Total
pub mod Dots
use hcpp.Common.{
  ℕ, zero, suc, ◌+◌, ◌-◌, ◌*◌, ◌/◌, ◌%◌, ◌^◌, Bool, true, false, not, ◌&&◌, ◌||◌, List, [], ◌∷◌,
  ◌++◌, Option, none, some, map, Bytes, length, take, drop, get_or, ltb, leb, ◌==◌, if◌then◌else◌,
  find,
}

abbrev pub dns_max_label : ℕ
dns_max_label = 63

abbrev pub dot : ℕ
dot = b'.'

-- `tolower` in the C locale.
unfoldable pub tolower : ℕ → ℕ
tolower c = if leb b'A' c && leb c b'Z' then c + 32 else c

unfoldable pub lcs : Bytes → Bytes
lcs = map tolower

name_char : ℕ → Bool
name_char c =
    (leb b'0' c && leb c b'9')
    || (leb b'a' c && leb c b'z')
    || (leb b'A' c && leb c b'Z')
    || c == b'-'
    || c == dot

all_name_chars : Bytes → Bool
unfolding name_char
all_name_chars [] = true
all_name_chars (c ∷ cs) = name_char c && all_name_chars cs

unfoldable pub valid_name : Bytes → Bool
unfolding all_name_chars
valid_name name =
    if ltb 254 (length name) || ltb (length name) 2 then false else all_name_chars name

-- The first loop of `host2qname`, on what stands from `pos1` on: labels that are too long are cut,
-- the last one is not.
unfoldable pub split_host : ℕ → Bytes → Bytes
split_host zero rest = []
split_host (suc fuel) [] = []
split_host (suc fuel) (c ∷ cs) = elim (find (c ∷ cs) (dot ∷ [])) [
  | none ↦ c ∷ cs
  | some n ↦ elim (ltb dns_max_label n) [
    | true ↦ take dns_max_label (c ∷ cs) ++ (dot ∷ split_host fuel (drop dns_max_label (c ∷ cs)))
    | false ↦ take n (c ∷ cs) ++ (dot ∷ split_host fuel (drop (n + 1) (c ∷ cs)))
  ]
]

-- A write into the buffer.
pub set : Bytes → ℕ → ℕ → Bytes
set [] i v = []
set (x ∷ xs) zero v = v ∷ xs
set (x ∷ xs) (suc i) v = x ∷ set xs i v

-- The innermost loop: how far the next dot or end is. `i` has eight bits, so where 256 rounds are
-- not enough the loop runs for ever.
pub scan : ℕ → Bytes → ℕ → ℕ → Option ℕ
scan zero buf last i = none
scan (suc fuel) buf last i =
    let more = scan fuel buf last ((i + 1) % 256) in
    let c = get_or buf (last + i) 0 in if c == dot || c == 0 then some i else more

-- What `host2qname` leaves: -1, its result, or that it does not return.
pub data Qname : Type 0 where
  overlong : Qname
  qname : Bytes → Qname
  unfinished : Qname

pub set_counts : ℕ → Bytes → ℕ → ℕ → Qname
set_counts zero buf size last = unfinished
set_counts (suc fuel) buf size last = elim (ltb last size) [
  | false ↦ qname (take (last + 1) buf)
  | true ↦ elim (scan 256 buf last 0) [
    | none ↦ unfinished
    | some i ↦
        let counted = set buf last ((i + 255) % 256) in
        let next = last + i in
        let again = set_counts fuel counted size next in
        if get_or counted next 0 == 0
        then qname (take (next + 1) counted)
        else if get_or counted (next + 1) 0 == 0
        then qname (take (next + 1) (set counted next 0))
        else again
  ]
]

pub zeros : ℕ → Bytes
zeros zero = []
zeros (suc n) = 0 ∷ zeros n

abbrev pub split_limit : ℕ
split_limit = 2048

-- The length of the result is the value that is returned.
unfoldable pub host2qname : Bytes → Qname
unfolding split_host set scan set_counts zeros
host2qname host =
    let split = split_host (length host + 1) host in
    let size = length split in
    if leb split_limit size
    then overlong
    else set_counts (2 * size + 2) (0 ∷ (split ++ zeros (4095 - size))) size 0

-- What `qname2host` leaves: -1, its value with the name, or that it does not return.
pub data Host : Type 0 where
  malformed : Host
  host : ℕ → Bytes → Host
  unfinished : Host

host_done : Bytes → ℕ → Host
host_done [] r = host 0 []
host_done (c ∷ cs) r = if ltb 255 (length (c ∷ cs)) then malformed else host (r + 1) (c ∷ cs)

-- A length above 63 has one of its two highest bits set, so the test for a pointer holds there.
-- The loop at byte `i`, with `r` bytes of the name passed and `depth` pointers followed.
pub read_labels : ℕ → Bytes → ℕ → ℕ → ℕ → ℕ → Bytes → Host
unfolding host_done
read_labels zero msg start i r depth s = unfinished
read_labels (suc fuel) msg start i r depth s =
    let size = length msg in
    let len = get_or msg i 0 in
    let deeper = (depth + 1) % 256 in
    let target = get_or msg (i + 1) 0 % 256 in
    let jump = read_labels fuel msg start target (if leb deeper 1 then r + 1 else r) deeper s in
    let next =
      read_labels fuel msg start (i + len + 1) (if depth == 0 then r + len + 1 else r) depth
        (s ++ (take len (drop (i + 1) msg) ++ (dot ∷ []))) in
    if len == 0
    then host_done s r
    else if ltb dns_max_label len
    then (if start == 0
        then malformed
        else if ltb 10 deeper
        then malformed
        else if leb size (i + 1)
        then malformed
        else if leb size target
        then malformed
        else jump)
    else if ltb size (len + i + 1)
    then malformed
    else next

-- The fuel: eleven passes over the message, for at most ten pointers.
unfoldable pub qname2host : Bytes → ℕ → Host
unfolding read_labels
qname2host msg start = read_labels (11 * (length msg + 1) + 1) msg start start 0 0 []
