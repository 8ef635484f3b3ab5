-- ===== src/Dns/Exchange.antt =====
-- `dnshttps::get` of src/dns/dnshttps.cc over the interface `Memory`. The lines on the standard output
-- and the branches of the tests of constants are left out. What `parse_rfc8484` returns is not
-- returned: 0 stands for every exchange that gets that far.
pub mod Fetch
use hcpp.Common.{
  ℕ, zero, suc, ◌+◌, ◌*◌, Bool, true, false, not, List, [], ◌∷◌, ◌++◌, Option, none, some, Bytes,
  length, drop, ltb, if◌then◌else◌, codes, find, strtoul,
}
use hcpp.Memory.{Memory}
use hcpp.Dns.Name.{valid_name}
use hcpp.Dns.Query.{make_query, htons}
use hcpp.Dns.Reply.{Parsed, parse_rfc8484, dns_type_a}

unfoldable pub request : Bytes → Bytes → Bytes
request dns_host b64 =
    codes "GET /dns-query?dns="
    ++ b64
    ++ codes " HTTP/1.1\r\nHost: "
    ++ dns_host
    ++ codes "\r\nUser-Agent: harddns 0.58 github.com/stealth/harddns\r\nConnection: Keep-Alive\r\n"
    ++ codes "Accept: application/dns-message\r\n"
    ++ codes "\r\n\r\n"

-- The number behind `Content-Length:`, if there is one that is small enough.
unfoldable pub content_length : Bytes → Option ℕ
content_length reply = elim (find reply (codes "Content-Length:")) [
  | none ↦ none
  | some idx ↦ let cl = strtoul 10 (drop (idx + 15) reply) in if ltb 65535 cl then none else some cl
]

module _ (M : Memory) where
  open M use {Mem, async_load_some, async_load_until, async_write_all, get_some, remove_some}

  -- -1, or 0 with what the parser has made of the reply.
  pub data Got : Type 0 where
    refused : Mem → Got
    replied : Parsed → Mem → Got

  -- The loop that reads the rest of the body.
  unfoldable pub fetch : ℕ → ℕ → ℕ → Bytes → Mem → Option (Bytes × Mem)
  fetch zero cl cli reply m = none
  fetch (suc fuel) cl cli reply m =
      let (str, m1) = async_load_some (1024 * 4) m in
      let again = fetch fuel cl (cli + length str) (reply ++ str) (remove_some (length str) m1).1 in
      if ltb cli cl then again else some (reply, m)

  -- From the header of the reply on.
  unfoldable pub body : ℕ → Bytes → ℕ → Bytes → Mem → Option Got
  body fuel name qtype sv1 m = elim (content_length sv1) [
    | none ↦ some (refused m)
    | some cl ↦
        let sv2 = get_some m in
        let m1 = (remove_some (length sv2) m).1 in
        elim (fetch fuel cl (length sv2) (sv1 ++ sv2) m1) [
          | none ↦ none
          | some got ↦ elim (parse_rfc8484 name qtype got.0 (length sv1) cl) [
            | none ↦ none
            | some p ↦ some (replied p got.1)
          ]
        ]
  ]

  unfoldable pub get : ℕ → ℕ → Bytes → Bytes → ℕ → Mem → Option Got
  get fuel now dns_host name qtype m =
      if not (valid_name name) then some (refused m) else elim (make_query now name qtype) [
        | none ↦ none
        | some b64 ↦ elim b64 [
          | [] ↦ some (refused m)
          | c ∷ cs ↦
              let m1 = async_write_all (request dns_host (c ∷ cs)) m in
              let (sv1, m2) = async_load_until (codes "\r\n\r\n") m1 in
              body fuel name qtype sv1 (remove_some (length sv1) m2).1
        ]
      ]

  unfoldable pub get_a : ℕ → ℕ → Bytes → Bytes → Mem → Option Got
  get_a fuel now dns_host name m = get fuel now dns_host name (htons dns_type_a) m
