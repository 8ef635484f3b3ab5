-- ===== src/Tests/Replies.antt =====
-- A reply to the query of type A for `a.bc` with the address 10.1.2.3.
use hcpp.Common.{◌++◌, none, ◌≢◌, codes, [], ◌∷◌, some, ◌≡◌, refl, arith, Bytes}
use hcpp.Dns.Name.{dot, lcs, tolower}
use hcpp.Dns.Name.Decode.{dots}
use hcpp.Tests.Names.{labels, labels-AreLabels}
use hcpp.Dns.Reply.{answered, parse_message, parse_rfc8484}
use hcpp.Dns.Reply.Total.{parse_rfc8484-returns}
use hcpp.Dns.Reply.Actions.{All, IsTrusted}
use hcpp.Dns.Reply.Sound.{parse_message-IsTrusted}
use hcpp.Dns.Reply.Records.{V4, v4_answer, reply_bytes}
use hcpp.Dns.Reply.Addresses.{parse_message-v4}

abbrev header : Bytes
header = 0 ∷ 7 ∷ 129 ∷ 128 ∷ 0 ∷ 1 ∷ 0 ∷ 1 ∷ 0 ∷ 0 ∷ 0 ∷ 0 ∷ []

abbrev address : V4
address = record { t3 = 0; t2 = 0; t1 = 1; t0 = 44; a = 10; b = 1; c = 2; d = 3 }

-- The name in capitals.
abbrev name : Bytes
name = 65 ∷ dot ∷ 66 ∷ 67 ∷ []

parse_message-v4_example :
    parse_message name 256 (reply_bytes header labels (address ∷ []))
    ≡ some (record { ret = answered; answers = v4_answer labels address ∷ [] })
unfolding dots lcs tolower
parse_message-v4_example =
    parse_message-v4 header name 256 labels (address ∷ []) refl (omega arith) (omega arith) (refl)
      labels-AreLabels (omega arith) (omega arith) (omega arith)

parse_message-IsTrusted_example :
    All (IsTrusted name (reply_bytes header labels (address ∷ []))) (v4_answer labels address ∷ [])
parse_message-IsTrusted_example =
    parse_message-IsTrusted name (reply_bytes header labels (address ∷ [])) 256
      parse_message-v4_example

abbrev message : Bytes
message = reply_bytes header labels (address ∷ [])

-- The message as the one chunk of a reply.
abbrev chunked : Bytes
chunked = codes "HTTP/1.1 200 OK\r\n\r\n26\r\n" ++ (message ++ codes "\r\n0\r\n\r\n")

parse_rfc8484-returns_example : parse_rfc8484 name 256 chunked 0 0 ≢ none
parse_rfc8484-returns_example = parse_rfc8484-returns name 256 chunked 0 0
