-- ===== src/Dns/Name/Dots.antt =====
-- How the names end that `qname2host` of src/dns/dnshttps.cc gives.
use hcpp.Common.{
  ℕ, zero, suc, ◌+◌, ◌*◌, ◌%◌, Bool, true, false, [], ◌∷◌, ◌++◌, subst, append_assoc, Bytes, length,
  take, drop, get_or, ltb, leb, ◌==◌, if◌then◌else◌,
}
use hcpp.Dns.Name.{dot, dns_max_label, Host, malformed, host, host_done, read_labels, qname2host}
use hcpp.Dns.Name.Gaps.{EndsDot, EndsDot-append}

abbrev pub HasDot : Host → Type 0
HasDot malformed = Unit {0}
HasDot (host n s) = EndsDot s
HasDot Host.unfinished = Unit {0}

HasDot-if : (b : Bool) (x y : Host) → HasDot x → HasDot y → HasDot (if b then x else y)
HasDot-if true x y p q = p
HasDot-if false x y p q = q

host_done-HasDot : (s : Bytes) (r : ℕ) → EndsDot s → HasDot (host_done s r)
unfolding host_done
host_done-HasDot [] r e = tt
host_done-HasDot (c ∷ cs) r e =
    HasDot-if (ltb 255 (length (c ∷ cs))) malformed (host (r + 1) (c ∷ cs)) tt e

read_labels-HasDot :
    (fuel : ℕ) (msg : Bytes) (start i r depth : ℕ) (s : Bytes)
    → EndsDot s
    → HasDot (read_labels fuel msg start i r depth s)
unfolding read_labels
read_labels-HasDot zero msg start i r depth s e = tt
read_labels-HasDot (suc fuel) msg start i r depth s e =
    let len = get_or msg i 0 in
    let label = take len (drop (i + 1) msg) in
    let jump =
      read_labels-HasDot fuel msg start (get_or msg (i + 1) 0 % 256)
        (if leb ((depth + 1) % 256) 1 then r + 1 else r) ((depth + 1) % 256) s e in
    let next =
      read_labels-HasDot fuel msg start (i + len + 1) (if depth == 0 then r + len + 1 else r) depth
        (s ++ (label ++ (dot ∷ [])))
        (subst EndsDot (append_assoc s label (dot ∷ [])) (EndsDot-append (s ++ label))) in
    HasDot-if (len == 0) _ _ (host_done-HasDot s r e) (
      HasDot-if (ltb dns_max_label len) _ _
        (HasDot-if (start == 0) _ _ tt (
          HasDot-if (ltb 10 ((depth + 1) % 256)) _ _ tt (
            HasDot-if (leb (length msg) (i + 1)) _ _ tt
              (HasDot-if (leb (length msg) (get_or msg (i + 1) 0 % 256)) _ _ tt jump))))
        (HasDot-if (ltb (length msg) (len + i + 1)) _ _ tt next))

pub qname2host-HasDot : (msg : Bytes) (start : ℕ) → HasDot (qname2host msg start)
unfolding qname2host
qname2host-HasDot msg start =
    read_labels-HasDot (11 * (length msg + 1) + 1) msg start start 0 0 [] tt
