-- ===== src/Dns/Name/Decode.antt =====
-- `qname2host` of src/dns/dnshttps.cc: its loop, on labels, on pointers and on any message.
use hcpp.Common.{
  ℕ, zero, suc, ◌+◌, ◌-◌, ◌*◌, ◌%◌, ◌≤◌, ◌<◌, true, false, List, [], ◌∷◌, ◌++◌, ◌≡◌, ◌≢◌, refl, sym,
  ap, ap₂, ◌∙◌, arith, Bytes, length, take, drop, get_or, ltb, leb, ◌==◌, if◌then◌else◌,
  append_assoc, append-nil, length-append, take-append_le, take-all, drop-append_ge,
}
use hcpp.Dns.Name.{dot, dns_max_label, host, unfinished, host_done, read_labels, qname2host}
use hcpp.Dns.Name.Wire.{AreLabels, wire, get_or-append}

-- The text form with a dot behind each label.
unfoldable pub dots : List Bytes → Bytes
dots [] = []
dots (l ∷ ls) = l ++ (dot ∷ dots ls)

-- The value that is returned for a name that has taken `n` bytes, read behind `depth` pointers.
abbrev passed : ℕ → ℕ → ℕ → ℕ
passed depth r n = if depth == 0 then r + n else r

slice :
    (pre l rest : Bytes) (x : ℕ)
    → take (length l) (drop (length pre + 1) (pre ++ (x ∷ (l ++ rest)))) ≡ l
slice pre l rest x =
    ap (take (length l)) (
      drop-append_ge (length pre + 1) pre (x ∷ (l ++ rest)) (omega arith)
      ∙ ap (λ k. drop k (x ∷ (l ++ rest))) {x = length pre + 1 - length pre} {y = 1} (omega arith))
    ∙ take-append_le (length l) l rest (omega arith)
    ∙ take-all (length l) l (omega arith)

read_labels-label :
    (f start r depth : ℕ) (pre l rest s : Bytes)
    → 0 < length l
    → length l ≤ 63
    → read_labels (suc f) (pre ++ (length l ∷ (l ++ rest))) start (length pre) r depth s
      ≡ read_labels f
          (pre ++ (length l ∷ (l ++ rest)))
          start
          (length pre + length l + 1)
          (passed depth r (length l + 1))
          depth
          (s ++ (l ++ (dot ∷ [])))
unfolding read_labels
read_labels-label f start r depth pre l rest s n h =
    let msg = pre ++ (length l ∷ (l ++ rest)) in
    let here : get_or msg (length pre) 0 ≡ length l =
      get_or-append pre (length l ∷ (l ++ rest)) 0 (length pre) (omega arith) in
    let some_label : (length l == 0) ≡ false = ground arith in
    let plain : ltb dns_max_label (length l) ≡ false = ground arith in
    let fits : ltb (length msg) (length l + length pre + 1) ≡ false =
      ground (arith, length-append pre (length l ∷ (l ++ rest)), length-append l rest) in
    let cut = slice pre l rest (length l) in
    rw (here, some_label, plain, fits, cut)
      (ap
        (λ q. read_labels f msg start (length pre + length l + 1) q depth (s ++ (l ++ (dot ∷ []))))
        (ground arith))

length-wire : (ls : List Bytes) → 0 < length (wire ls)
unfolding wire
length-wire [] = omega arith
length-wire (l ∷ ls) = omega arith

read_labels-wire :
    (f start r depth : ℕ) (pre rest s : Bytes) (ls : List Bytes)
    → AreLabels ls
    → length ls < f
    → read_labels f (pre ++ (wire ls ++ rest)) start (length pre) r depth s
      ≡ host_done (s ++ dots ls) (passed depth r (length (wire ls) - 1))
unfolding wire dots
read_labels-wire zero start r depth pre rest s ls a h = absurd (omega arith)
read_labels-wire (suc f) start r depth pre rest s [] a h =
    unfold read_labels in ground (arith, get_or-append pre (0 ∷ rest) 0 (length pre), append-nil s)
read_labels-wire (suc f) start r depth pre rest s (l ∷ ls) a h =
    let behind = wire ls ++ rest in
    let pre' = pre ++ (length l ∷ l) in
    let whole : pre ++ (length l ∷ (l ++ behind)) ≡ pre' ++ behind =
      sym (append_assoc pre (length l ∷ l) behind) in
    let moved : length pre + length l + 1 ≡ length pre' =
      omega (arith, length-append pre (length l ∷ l)) in
    let s' = s ++ (l ++ (dot ∷ [])) in
    let text : s' ++ dots ls ≡ s ++ (l ++ (dot ∷ dots ls)) =
      append_assoc s (l ++ (dot ∷ [])) (dots ls)
      ∙ ap (λ t. s ++ t) (append_assoc l (dot ∷ []) (dots ls)) in
    let counted : passed depth (passed depth r (length l + 1)) (length (wire ls) - 1)
        ≡ passed depth r (suc (length (l ++ wire ls)) - 1) =
      ground (arith, length-append l (wire ls), length-wire ls) in
    rw (append_assoc l (wire ls) rest) (
      read_labels-label f start r depth pre l behind s a.1 a.2
      ∙ ap₂ (λ m i. read_labels f m start i (passed depth r (length l + 1)) depth s') whole moved
      ∙ read_labels-wire f start (passed depth r (length l + 1)) depth pre' rest s' ls a.3
          (omega arith)
      ∙ ap₂ host_done text counted)

host_done-ends : (s : Bytes) (r : ℕ) → host_done s r ≢ unfinished
unfolding host_done
host_done-ends [] r = λ e. cc
host_done-ends (c ∷ cs) r = ground arith

-- `k` pointers may still be followed.
read_labels-ends :
    (f start i r depth k : ℕ) (msg s : Bytes)
    → depth + k ≡ 10
    → i ≤ length msg
    → length msg - i + k * (length msg + 1) < f
    → read_labels f msg start i r depth s ≢ unfinished
unfolding read_labels
read_labels-ends zero start i r depth k msg s d h lt = absurd (omega arith)
read_labels-ends (suc f) start i r depth zero msg s d h lt = ground (
  arith,
  host_done-ends s r,
  read_labels-ends f start (i + get_or msg i 0 + 1)
      (if depth == 0 then r + get_or msg i 0 + 1 else r) depth zero msg
      (s ++ (take (get_or msg i 0) (drop (i + 1) msg) ++ (dot ∷ []))),
)
read_labels-ends (suc f) start i r depth (suc k) msg s d h lt = ground (
  arith,
  host_done-ends s r,
  read_labels-ends f start (i + get_or msg i 0 + 1)
      (if depth == 0 then r + get_or msg i 0 + 1 else r) depth (suc k) msg
      (s ++ (take (get_or msg i 0) (drop (i + 1) msg) ++ (dot ∷ []))),
  read_labels-ends f start (get_or msg (i + 1) 0 % 256)
      (if leb ((depth + 1) % 256) 1 then r + 1 else r) ((depth + 1) % 256) k msg s,
)

-- From a start inside the message or at its end, the loop that reads a name ends on every message,
-- pointers that form a cycle included.
pub qname2host-ends :
    (msg : Bytes) (start : ℕ) → start ≤ length msg → qname2host msg start ≢ unfinished
unfolding qname2host
qname2host-ends msg start h =
    read_labels-ends (11 * (length msg + 1) + 1) start start 0 0 10 msg [] refl h (omega arith)

length-wire-ge : (ls : List Bytes) → length ls < length (wire ls)
unfolding wire
length-wire-ge [] = omega arith
length-wire-ge (l ∷ ls) = omega (arith, length-wire-ge ls, length-append l (wire ls))

host_done-dots :
    (r : ℕ) (ls : List Bytes)
    → AreLabels ls
    → 0 < length ls
    → length (dots ls) ≤ 255
    → host_done (dots ls) r ≡ host (r + 1) (dots ls)
unfolding host_done dots
host_done-dots r [] a n h = absurd (omega arith)
host_done-dots r ([] ∷ ls) a n h = absurd (omega (arith, a.1))
host_done-dots r ((c ∷ cs) ∷ ls) a n h = ground arith

-- One or more well-formed labels in wire form, at any place in a message, whose text has at most
-- 255 bytes, are read as the labels with a dot behind each, and the value is the number of bytes
-- that they take.
pub qname2host-wire :
    (pre rest : Bytes) (ls : List Bytes)
    → AreLabels ls
    → 0 < length ls
    → length (dots ls) ≤ 255
    → qname2host (pre ++ (wire ls ++ rest)) (length pre) ≡ host (length (wire ls)) (dots ls)
unfolding qname2host
qname2host-wire pre rest ls a n h =
    let msg = pre ++ (wire ls ++ rest) in
    let enough : length ls < 11 * (length msg + 1) + 1 = omega (
      arith,
      length-wire-ge ls,
      length-append pre (wire ls ++ rest),
      length-append (wire ls) rest,
    ) in
    read_labels-wire (11 * (length msg + 1) + 1) (length pre) 0 0 pre rest [] ls a enough
    ∙ ap (host_done (dots ls)) {x = 0 + (length (wire ls) - 1)} (omega arith)
    ∙ host_done-dots (length (wire ls) - 1) ls a n h
    ∙ ap (λ k. host k (dots ls)) {x = length (wire ls) - 1 + 1} (omega (arith, length-wire ls))

-- A name that is a compression pointer, not at the message's start, to one or more well-formed
-- labels at an index below 256, with a text of at most 255 bytes, is read at the byte that the
-- pointer's second byte names, whatever the low six bits of its first byte are; it takes two
-- bytes.
pub qname2host-pointer :
    (pre rest before behind : Bytes) (p : ℕ) (ls : List Bytes)
    → let msg = pre ++ (p ∷ length before ∷ rest) in
      msg ≡ before ++ (wire ls ++ behind)
      → 63 < p
      → 0 < length pre
      → length before < 256
      → AreLabels ls
      → 0 < length ls
      → length (dots ls) ≤ 255
      → qname2host msg (length pre) ≡ host 2 (dots ls)
unfolding qname2host
qname2host-pointer pre rest before behind p ls e big n small a some_label h =
    let msg = pre ++ (p ∷ length before ∷ rest) in
    let size = length-append pre (p ∷ length before ∷ rest) in
    let size' = length-append before (wire ls ++ behind) in
    let size'' = length-append (wire ls) behind in
    let first : get_or msg (length pre) 0 ≡ p =
      get_or-append pre (p ∷ length before ∷ rest) 0 (length pre) (omega arith) in
    let second : get_or msg (length pre + 1) 0 % 256 ≡ length before =
      ground (arith, get_or-append pre (p ∷ length before ∷ rest) 1 (length pre + 1)) in
    let nonzero : (p == 0) ≡ false = ground arith in
    let pointer : ltb dns_max_label p ≡ true = ground arith in
    let inside : (length pre == 0) ≡ false = ground arith in
    let room : leb (length msg) (length pre + 1) ≡ false = ground arith in
    let target : leb (length msg) (length before) ≡ false =
      ground (arith, ap length e, length-wire ls) in
    let jumps : read_labels (suc (11 * (length msg + 1))) msg (length pre) (length pre) 0 0 []
        ≡ read_labels (11 * (length msg + 1)) msg (length pre) (length before) 1 1 [] =
      unfold read_labels in rw (first, second, nonzero, pointer, inside, room, target) in
    ap (λ f. read_labels f msg (length pre) (length pre) 0 0 []) {x = 11 * (length msg + 1) + 1}
      {y = suc (11 * (length msg + 1))} (omega arith)
    ∙ jumps
    ∙ ap (λ m. read_labels (11 * (length msg + 1)) m (length pre) (length before) 1 1 []) e
    ∙ read_labels-wire (11 * (length msg + 1)) (length pre) 1 1 before behind [] ls a
        (omega (arith, length-wire-ge ls, ap length e))
    ∙ host_done-dots 1 ls a some_label h

pub length-dots : (ls : List Bytes) → length (dots ls) + 1 ≡ length (wire ls)
unfolding dots wire
length-dots [] = refl
length-dots (l ∷ ls) =
    omega (arith, length-dots ls, length-append l (dot ∷ dots ls), length-append l (wire ls))
