-- ===== src/Dns/Query.antt =====
-- `make_query` of src/dns/dnshttps.cc with the header of src/dns/net-headers.h, on a little-endian
-- host. The clock is an argument.
pub mod Message
use hcpp.Common.{
  ℕ, zero, suc, ◌+◌, ◌-◌, ◌*◌, ◌/◌, ◌%◌, ◌^◌, List, [], ◌∷◌, ◌++◌, Option, none, some, Bytes,
  length,
}
use hcpp.Dns.Base64.{b64url_encode}
use hcpp.Dns.Name.{Qname, overlong, qname, unfinished, host2qname}

-- The bytes of a `uint16_t` in memory, and the number that two bytes of memory are.
unfoldable pub store16 : ℕ → Bytes
store16 h = h % 256 ∷ h / 256 % 256 ∷ []

unfoldable pub load16 : ℕ → ℕ → ℕ
load16 a b = a + 256 * b

unfoldable pub htons : ℕ → ℕ
htons h = h % 256 * 256 + h / 256 % 256

-- `dnshdr`, its bit fields as numbers.
pub record Dnshdr : Type 0 where
  pub id : ℕ
  pub rd : ℕ
  pub tc : ℕ
  pub aa : ℕ
  pub opcode : ℕ
  pub qr : ℕ
  pub rcode : ℕ
  pub ra : ℕ
  pub q_count : ℕ
  pub a_count : ℕ
  pub rra_count : ℕ
  pub ad_count : ℕ

-- The header as the constructor leaves it.
abbrev pub empty_header : Dnshdr
empty_header = record {
  id = 0;
  rd = 0;
  tc = 0;
  aa = 0;
  opcode = 0;
  qr = 0;
  rcode = 0;
  ra = 0;
  q_count = 0;
  a_count = 0;
  rra_count = 0;
  ad_count = 0;
}

-- Its bytes: bit fields fill a byte from the low end.
unfoldable pub header_bytes : Dnshdr → Bytes
unfolding store16
header_bytes h =
    store16 h.id
    ++ ((h.rd + 2 * h.tc + 4 * h.aa + 8 * h.opcode + 128 * h.qr) ∷ [])
    ++ ((h.rcode + 128 * h.ra) ∷ [])
    ++ store16 h.q_count
    ++ store16 h.a_count
    ++ store16 h.rra_count
    ++ store16 h.ad_count

-- The message of a query for `name` at clock count `now`. A name that is too long has the empty
-- query; one on which `host2qname` does not return has none.
unfoldable pub dns_query : ℕ → Bytes → ℕ → Option Bytes
unfolding header_bytes store16 htons
dns_query now name qtype =
    let qhdr = record empty_header { q_count = htons 1; rd = 1; id = now % 0xffff } in
    elim (host2qname name) [
      | unfinished ↦ none
      | overlong ↦ some []
      | qname q ↦ some (header_bytes qhdr ++ q ++ store16 qtype ++ store16 (htons 1))
    ]

unfoldable pub make_query : ℕ → Bytes → ℕ → Option Bytes
unfolding dns_query
make_query now name qtype = elim (dns_query now name qtype) [
  | none ↦ none
  | some m ↦ elim m [ [] ↦ some [] | c ∷ cs ↦ some (b64url_encode (c ∷ cs)) ]
]
