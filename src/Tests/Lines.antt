-- ===== src/Tests/Lines.antt =====
-- The lines `GET http://a.bc:81/x?y HTTP/1.1` and `CONNECT a.bc:443 HTTP/1.1`.
use hcpp.Common.{
  ◌≡◌, ◌≤◌, refl, arith, true, some, Bytes, codes, length, equal, strtoul, find, starts_with,
}
use hcpp.Http.Request.{
  request_line, new_request, Request, connect, other, all, host_char, port_text,
}
use hcpp.Http.Headers.{digit}
use hcpp.Http.Request.Parts.{IsEndpoint, IsVersion}
use hcpp.Http.Request.Forms.{IsAbsolute, request_line-absolute, request_line-connect}
use hcpp.Http.Request.Accepted.{HasService}
use hcpp.Http.Request.Safe.{request_line-IsSafe}

one_one : IsVersion (codes "1") (codes "1")
unfolding digit all
one_one = record {
  major_digits = refl;
  minor_digits = refl;
  some_major = omega arith;
  short_major = omega arith;
  some_minor = omega arith;
  short_minor = omega arith;
}

small_443 : strtoul 10 (codes "443") ≤ 65535
unfolding strtoul
small_443 = omega arith

small_81 : strtoul 10 (codes "81") ≤ 65535
unfolding strtoul
small_81 = omega arith

a_bc-IsEndpoint :
    (port : Bytes)
    → port_text port ≡ true
    → strtoul 10 port ≤ 65535
    → IsEndpoint (codes "a.bc") port
unfolding host_char all
a_bc-IsEndpoint port n s = record { some_byte = omega arith; plain = refl; number = n; small = s }

get_a_bc :
    IsAbsolute (codes "GET") (codes "a.bc") (codes "81") (codes "x?y") (codes "1") (codes "1")
unfolding equal port_text digit all
get_a_bc = record {
  name_plain = ground arith;
  no_connect = refl;
  endpoint = a_bc-IsEndpoint (codes "81") refl small_81;
  path_plain = ground arith;
  version = one_one;
}

request_line-absolute_example :
    request_line new_request (codes "GET http://a.bc:81/x?y HTTP/1.1\r\n")
    ≡ some (record new_request {
      method_str = codes "GET";
      method = other;
      host = codes "a.bc";
      port = codes "81";
      url = codes "/x?y";
      url_param_start = 2;
      version = codes "HTTP/1.1";
    })
unfolding find starts_with
request_line-absolute_example =
    request_line-absolute new_request (codes "GET") (codes "a.bc") (codes "81") (codes "x?y")
      (codes "1") (codes "1") get_a_bc

request_line-connect_example :
    request_line new_request (codes "CONNECT a.bc:443 HTTP/1.1\r\n")
    ≡ some (record new_request {
      method_str = codes "CONNECT";
      method = connect;
      host = codes "a.bc";
      port = codes "443";
      version = codes "HTTP/1.1";
    })
request_line-connect_example =
    request_line-connect new_request (codes "a.bc") (codes "443") (codes "1") (codes "1")
      (a_bc-IsEndpoint (codes "443") (unfold port_text in unfold digit in unfold all in refl)
        small_443)
      one_one

abbrev dialled : Request
dialled = record new_request {
  method_str = codes "CONNECT";
  method = connect;
  host = codes "a.bc";
  port = codes "443";
  version = codes "HTTP/1.1";
}

request_line-IsSafe_example :
    HasService new_request dialled × (dialled.url_param_start ≤ length dialled.url)
request_line-IsSafe_example =
    request_line-IsSafe new_request dialled (codes "CONNECT a.bc:443 HTTP/1.1\r\n") refl
      request_line-connect_example
