-- ===== src/Tests/Requests.antt =====
-- The headers `Host: a` and `HOST: b`.
use hcpp.Common.{Bool, ◌++◌, refl, arith, true, List, [], ◌∷◌, some, ◌≡◌, arith, equal, codes}
use hcpp.Http.Headers.{Headers, crlf, parsed, parser_header, header, to_lower}
use hcpp.Http.Headers.Closed.{parser_header-parses}
use hcpp.Http.Headers.{sized, body_of}
use hcpp.Http.Headers.Framing.{body_of-lines}
use hcpp.Http.Headers.Lines.{Field, AreFields, text_of, parser_header-lines}

abbrev two_hosts : List Field
two_hosts =
    record { first = b'H'; others = codes "ost"; value = codes "a" }
    ∷ record { first = b'H'; others = codes "OST"; value = codes "b" }
    ∷ []

two_hosts-AreFields : AreFields two_hosts
two_hosts-AreFields = ground arith

parser_header-lines_example :
    (m : Headers) × (parser_header (text_of two_hosts) [] ≡ parsed true m)
    × (header (codes "host") m ≡ some (codes "HOST: b\r\n"))
unfolding to_lower equal
parser_header-lines_example = parser_header-lines (codes "host") two_hosts two_hosts-AreFields

-- A folded line of nothing but its space stands at the end.
parser_header-parses_example :
    (ok : Bool) × (m : Headers) × (parser_header (codes "a: b\r\n " ++ crlf) [] ≡ parsed ok m)
parser_header-parses_example = parser_header-parses (codes "a: b\r\n ") []

-- The header `CONTENT-LENGTH: 205`.
abbrev length_field : Field
length_field = record { first = b'C'; others = codes "ONTENT-LENGTH"; value = codes "205" }

body_of-lines_example :
    (m : Headers) × (parser_header (text_of (length_field ∷ [])) [] ≡ parsed true m)
    × (body_of m ≡ sized 205)
unfolding to_lower equal
body_of-lines_example =
    body_of-lines (length_field ∷ []) length_field 50 (48 ∷ 53 ∷ []) (ground arith) refl refl refl
      refl (omega arith) (ground arith) (omega arith)
