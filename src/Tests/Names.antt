-- ===== src/Tests/Names.antt =====
-- Host names, their wire form and the query for `a.bc` at clock count 7.
use hcpp.Common.{List, ◌≢◌, [], ◌∷◌, some, ◌≡◌, inr, refl, arith, Bytes}
use hcpp.Dns.Base64.{b64url_encode}
use hcpp.Dns.Base64.Decode.{decode, decode-b64url_encode}
use hcpp.Dns.Name.{qname, host2qname, host, qname2host, unfinished, dot}
use hcpp.Dns.Name.Wire.{AreLabels, wire, dotted}
use hcpp.Dns.Name.Encode.{host2qname-dotted}
use hcpp.Dns.Name.Decode.{dots, qname2host-ends, qname2host-wire}

abbrev pub labels : List Bytes
labels = (97 ∷ []) ∷ (98 ∷ 99 ∷ []) ∷ []

pub labels-AreLabels : AreLabels labels
labels-AreLabels = (
  (omega arith, omega arith, tt),
  omega arith,
  omega arith,
  ((omega arith, omega arith, (omega arith, omega arith, tt)), omega arith, omega arith, tt),
)

decode-b64url_encode_example :
    decode (b64url_encode (0 ∷ 255 ∷ 16 ∷ 7 ∷ [])) ≡ some (0 ∷ 255 ∷ 16 ∷ 7 ∷ [])
decode-b64url_encode_example =
    decode-b64url_encode (0 ∷ 255 ∷ 16 ∷ 7 ∷ [])
      (omega arith, (omega arith, (omega arith, (omega arith, tt)))) (omega arith)

host2qname-dotted_example :
    host2qname (97 ∷ dot ∷ 98 ∷ 99 ∷ dot ∷ []) ≡ qname (1 ∷ 97 ∷ 2 ∷ 98 ∷ 99 ∷ 0 ∷ [])
unfolding wire dotted
host2qname-dotted_example =
    host2qname-dotted (dot ∷ []) labels labels-AreLabels (omega arith) (inr refl) (omega arith)

qname2host-wire_example :
    qname2host (9 ∷ 9 ∷ 1 ∷ 97 ∷ 2 ∷ 98 ∷ 99 ∷ 0 ∷ 7 ∷ []) 2
    ≡ host 6 (97 ∷ dot ∷ 98 ∷ 99 ∷ dot ∷ [])
unfolding wire dots
qname2host-wire_example =
    qname2host-wire (9 ∷ 9 ∷ []) (7 ∷ []) labels labels-AreLabels (omega arith) (omega arith)

-- A pointer to itself.
qname2host-ends_example : qname2host (0 ∷ 192 ∷ 1 ∷ []) 1 ≢ unfinished
qname2host-ends_example = qname2host-ends (0 ∷ 192 ∷ 1 ∷ []) 1 (omega arith)
