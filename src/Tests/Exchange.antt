-- ===== src/Tests/Exchange.antt =====
-- A reply of four bytes of which two are buffered; and one of seven bytes that ends too early.
use hcpp.Common.{
  ◌≤◌, true, false, [], ◌∷◌, ◌++◌, Option, none, some, ◌≡◌, refl, arith, Bytes, length, codes, find,
  starts_with, strtoul,
}
use hcpp.Buffer.{SocketMemory, get_some, flat}
use hcpp.Buffer.Chain.{IsValid}
use hcpp.Memory.Connection.{Connection, connection, stream}
use hcpp.Dns.Reply.{parse_rfc8484}
use hcpp.Dns.Exchange.{Got, replied, content_length, body}
use hcpp.Dns.Exchange.Fetch.{body-replies, body-never_returns}
use hcpp.Tests.Network.{one_by_one}

abbrev one_block : SocketMemory
one_block = record {
  read_ok = true;
  write_ok = true;
  closed = false;
  buffs = record { begin = 30; bytes = 7 ∷ 8 ∷ [] } ∷ [];
  read_index = 30;
  write_index = 32;
}

one_block-IsValid : IsValid one_block
one_block-IsValid = record {
  chain = (refl, omega arith, refl);
  starts = (omega arith, omega arith);
}

abbrev answering : Connection one_by_one
answering = record { sock = (9 ∷ 10 ∷ 11 ∷ [], []); buffer = one_block }

abbrev says : Bytes → Bytes
says n = codes "Content-Length: " ++ n ++ codes "\r\n\r\n"

body-replies_example :
    (taken : Bytes) × (rest : Connection one_by_one) × (9 ∷ 10 ∷ 11 ∷ [] ≡ taken ++ rest.sock.0)
    × (4 ≤ length (7 ∷ 8 ∷ taken))
    × (body (connection one_by_one) 5 [] 256 (says (b'4' ∷ [])) answering
        ≡ elim (parse_rfc8484 [] 256
              ((says (b'4' ∷ []) ++ 7 ∷ 8 ∷ []) ++ taken)
              (length (says (b'4' ∷ [])))
              4)
            as (λ x. Option (Got (connection one_by_one))) [
              | none ↦ none
              | some p ↦ some (replied p rest)
            ])
unfolding stream content_length find starts_with strtoul get_some flat
body-replies_example =
    body-replies (connection one_by_one) (stream one_by_one) 5 [] 256 (says (b'4' ∷ [])) answering 4
      refl one_block-IsValid refl (omega arith) (omega arith)

body-never_returns_example :
    body (connection one_by_one) 90 [] 256 (says (b'7' ∷ [])) answering ≡ none
unfolding stream content_length find starts_with strtoul get_some flat
body-never_returns_example =
    body-never_returns (connection one_by_one) (stream one_by_one) 90 [] 256 (says (b'7' ∷ []))
      answering 7 refl one_block-IsValid refl (omega arith)
