-- ===== src/Tests/Heads.antt =====
-- A request with one header, read from a socket that has all of it.
use hcpp.Common.{
  ◌≡◌, ◌≤◌, refl, arith, true, [], ◌∷◌, ◌++◌, some, Bytes, codes, length, equal, strtoul, find,
  starts_with,
}
use hcpp.Buffer.{fresh, flat, async_load_until, emplace_at, emplace, get_some, remove_some}
use hcpp.Memory.Connection.{Connection, connection, stream}
use hcpp.Http.Headers.{
  Headers, digit, crlf, parser_header, parsed, header_lines, fold_lines, assign, to_lower,
}
use hcpp.Http.Request.{request_line, new_request, Request, other, all, host_char, port_text}
use hcpp.Http.Request.Forms.{IsAbsolute, request_line-absolute}
use hcpp.Http.Parsers.Head.{IsHead, Parsed, request-head}
use hcpp.Tests.Network.{one_by_one}

small_81 : strtoul 10 (codes "81") ≤ 65535
unfolding strtoul
small_81 = omega arith

get_a_bc : IsAbsolute (codes "GET") (codes "a.bc") (codes "81") [] (codes "1") (codes "1")
unfolding equal port_text digit all host_char
get_a_bc = record {
  name_plain = ground arith;
  no_connect = refl;
  endpoint = record { some_byte = omega arith; plain = refl; number = refl; small = small_81 };
  path_plain = tt;
  version = record {
    major_digits = refl;
    minor_digits = refl;
    some_major = omega arith;
    short_major = omega arith;
    some_minor = omega arith;
    short_minor = omega arith;
  };
}

abbrev line : Bytes
line = codes "GET http://a.bc:81/ HTTP/1.1"

abbrev asked : Request
asked = record new_request {
  method_str = codes "GET";
  method = other;
  host = codes "a.bc";
  port = codes "81";
  url = codes "/";
  url_param_start = 1;
  version = codes "HTTP/1.1";
}

asked_lem : request_line new_request (line ++ crlf) ≡ some asked
unfolding find starts_with
asked_lem =
    request_line-absolute new_request (codes "GET") (codes "a.bc") (codes "81") [] (codes "1")
      (codes "1") get_a_bc

abbrev arrived : Bytes
arrived = codes "GET http://a.bc:81/ HTTP/1.1\r\nHost: a\r\n\r\n"

abbrev waiting : Connection one_by_one
waiting = record { sock = (arrived, []); buffer = fresh }

abbrev loaded : Connection one_by_one
loaded = record {
  sock = ([], []);
  buffer = record fresh {
    buffs = record { begin = 0; bytes = arrived } ∷ [];
    write_index = length arrived;
  };
}

abbrev map_of : Headers
map_of = (codes "host", codes "Host: a\r\n") ∷ []

loaded-IsHead :
    IsHead (connection one_by_one) (stream one_by_one) line (codes "Host: a\r\n") [] waiting loaded
unfolding stream flat get_some remove_some async_load_until emplace_at emplace
loaded-IsHead = record {
  given = refl;
  plain = ground arith;
  valid = record { chain = (refl, omega arith, refl); starts = (omega arith, omega arith) };
  waiting = refl;
  shown = (crlf, refl);
  short = omega arith;
}

map_lem : parser_header (codes "Host: a\r\n") [] ≡ parsed true map_of
unfolding parser_header header_lines fold_lines assign to_lower find starts_with equal
map_lem = refl

request-head_example :
    Parsed
      (connection one_by_one)
      (stream one_by_one)
      line
      new_request
      asked
      map_of
      9
      []
      waiting
      loaded
request-head_example =
    request-head (connection one_by_one) (stream one_by_one) line (codes "Host: a\r\n") []
      new_request asked map_of waiting loaded loaded-IsHead asked_lem map_lem
