-- ===== src/Dns/Name/Encode.antt =====
-- `host2qname` of src/dns/dnshttps.cc on a host of labels.
use hcpp.Common.{
  ℕ, zero, suc, ◌+◌, ◌-◌, ◌*◌, ◌≤◌, ◌<◌, false, List, [], ◌∷◌, ◌≡◌, inr, refl, ap, arith, Bytes,
  length, leb, length-append,
}
use hcpp.Dns.Name.{qname, zeros, host2qname, split_limit}
use hcpp.Dns.Name.Wire.{AreLabels, wire, dotted, IsTail}
use hcpp.Dns.Name.Split.{split_host-dotted}
use hcpp.Dns.Name.Counts.{set_counts-wire, length-dotted, dotted-tail}

zeros_suc : (n : ℕ) → 2 ≤ n → (z : Bytes) × (zeros n ≡ 0 ∷ 0 ∷ z)
unfolding zeros
zeros_suc zero h = absurd (omega arith)
zeros_suc (suc zero) h = absurd (omega arith)
zeros_suc (suc (suc n)) h = (zeros n, refl)

-- A host of one or more well-formed labels, below 2048 bytes, with a dot at its end or without, is
-- turned into exactly the wire form of its labels; in particular the code's loops return.
pub host2qname-dotted :
    (tail : Bytes) (ls : List Bytes)
    → AreLabels ls
    → 0 < length ls
    → IsTail tail
    → length (dotted tail ls) < split_limit
    → host2qname (dotted tail ls) ≡ qname (wire ls)
unfolding host2qname
host2qname-dotted tail ls a n t h =
    let text = dotted tail ls in
    let same = split_host-dotted (length text + 1) tail ls a t (omega arith) in
    let fits : leb split_limit (length text) ≡ false = ground arith in
    let (z, padded) = zeros_suc (4095 - length text) (omega arith) in
    let parts = ap length (dotted-tail tail ls n) in
    rw (same, fits, padded)
      (set_counts-wire (2 * length text + 2) (length text) 0 [] tail z ls (inr refl) a n t
        (omega (arith, length-append (dotted [] ls) tail)) (omega (arith, length-dotted tail ls a)))
