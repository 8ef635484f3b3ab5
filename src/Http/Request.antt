-- ===== src/Http/Request.antt =====
-- `http_request` and `request_line::parser_reuqest_line` of src/http/httpclient.cpp. The regular
-- expressions are written out as the bytes that they take, and match in one way only.
pub mod Accepted
pub mod Safe
pub mod Parts
pub mod Forms
use hcpp.Common.{
  ℕ, zero, suc, ◌+◌, ◌-◌, Bool, true, false, not, ◌&&◌, ◌||◌, List, [], ◌∷◌, ◌++◌, Option, none,
  some, Bytes, length, take, drop, ltb, leb, ◌==◌, if◌then◌else◌, equal, find, starts_with, codes,
  strtoul,
}
use hcpp.Http.Headers.{Headers, Body, no_body, crlf, digit}

-- `http_request::method`
pub data Method : Type 0 where
  connect other : Method

-- `http_request` with what it has of `http_msg`; the body's size and coding are one field.
pub record Request : Type 0 where
  pub headers : Headers
  pub body : Body
  pub has_error : Bool
  pub method : Method
  pub version : Bytes
  pub method_str : Bytes
  pub host : Bytes
  pub url : Bytes
  pub url_param_start : ℕ
  pub port : Bytes

-- What `http_client::make_request` gives.
abbrev pub new_request : Request
new_request = record {
  headers = [];
  body = no_body;
  has_error = true;
  method = connect;
  version = [];
  method_str = [];
  host = [];
  url = [];
  url_param_start = 0;
  port = [];
}

unfoldable pub get_method : Bytes → Method
get_method sv = if equal sv (codes "CONNECT") then connect else other

abbrev pub is_connect : Method → Bool
is_connect connect = true
is_connect other = false

abbrev pub space : Bytes
space = b' ' ∷ []

-- `[\w\.\-]`
unfoldable pub host_char : ℕ → Bool
host_char c =
    (leb b'0' c && leb c b'9')
    || (leb b'a' c && leb c b'z')
    || (leb b'A' c && leb c b'Z')
    || c == b'_'
    || c == b'.'
    || c == b'-'

-- The longest front of bytes that pass a test, and what follows it.
unfoldable pub span : (ℕ → Bool) → Bytes → Bytes × Bytes
span test [] = ([], [])
span test (c ∷ cs) =
    let (front, rest) = span test cs in if test c then (c ∷ front, rest) else ([], c ∷ cs)

unfoldable pub all : (ℕ → Bool) → Bytes → Bool
all test [] = true
all test (c ∷ cs) = test c && all test cs

-- `0|[1-9]\d{0,4}`
unfoldable pub port_text : Bytes → Bool
port_text [] = false
port_text (c ∷ cs) =
    (c == b'0' && leb (length cs) 0)
    || (leb b'1' c && leb c b'9' && all digit cs && leb (length cs) 4)

-- `^([\w\.\-]+)(:(0|[1-9]\d{0,4}))?` on the whole text: the host, and the port if there is one.
unfoldable pub endpoint : Bytes → Option (Bytes × Option Bytes)
endpoint text =
    let (name, rest) = span host_char text in
    elim name [
      | [] ↦ none
      | c ∷ cs ↦ elim rest [
        | [] ↦ some (c ∷ cs, none)
        | d ∷ ds ↦ if d == b':' && port_text ds then some (c ∷ cs, some ds) else none
      ]
    ]

-- `^\d{1,5}\.\d{1,10}$`
unfoldable pub version_text : Bytes → Bool
version_text text =
    let (major, rest) = span digit text in
    elim rest [
      | [] ↦ false
      | c ∷ minor ↦
          leb 1 (length major)
          && leb (length major) 5
          && c == b'.'
          && leb 1 (length minor)
          && leb (length minor) 10
          && all digit minor
    ]

-- The end of the line, where the protocol's version stands.
unfoldable pub http_version : Request → Bytes → Option Request
http_version h svl =
    let text = if ltb (length svl) 2 then svl else take (length svl - 2) svl in
    if starts_with svl (codes "HTTP/")
    then elim (find (drop 5 svl) crlf) [
      | none ↦ none
      | some http_ver_end ↦
          if version_text (take http_ver_end (drop 5 svl))
          then some (record h { version = text })
          else none
    ]
    else none

-- The url of a request that is not `CONNECT`.
unfoldable pub with_url : Request → Bytes → Request
with_url h [] = if equal h.host [] then record h { url = [] } else record h { url = b'/' ∷ [] }
with_url h (c ∷ cs) = record h {
  url = c ∷ cs;
  url_param_start = elim (find (c ∷ cs) (b'?' ∷ [])) [ none ↦ length (c ∷ cs) | some p ↦ p ];
}

unfoldable pub request_url : Request → ℕ → Bytes → Option Request
request_url h url_end svl =
    http_version (if is_connect h.method then h else with_url h (take url_end svl))
      (drop (url_end + 1) svl)

-- The host and the port, where the text has that form; the flag says whether it has.
unfoldable pub service : Request → Bytes → Option (Request × Bool)
service h text = elim (endpoint text) [
  | none ↦ some (h, false)
  | some (host, port) ↦ elim port [
    | none ↦ some (record h { host = host; port = codes "80" }, true)
    | some p ↦
        if ltb 65535 (strtoul 10 p) then none else some (record h { host = host; port = p }, true)
  ]
]

-- Where the scheme and the service end, in the text behind the method and up to its next space.
unfoldable pub scheme_size : Request → Bytes → ℕ
scheme_size h svl = if not (is_connect h.method) && starts_with svl (codes "http://") then 7 else 0

unfoldable pub service_end : Request → Bytes → ℕ
service_end h uri =
    if is_connect h.method
    then length uri
    else elim (find uri (b'/' ∷ [])) [ none ↦ length uri | some slash ↦ slash ]

unfoldable pub request_target : Request → Bytes → Option Request
request_target h svl = elim (find svl space) [
  | none ↦ none
  | some uri_end ↦
      let skip = scheme_size h svl in
      let uri = take (uri_end - skip) (drop skip svl) in
      let e = service_end h uri in
      elim (service h (take e uri)) [
        | none ↦ none
        | some (h1, matched) ↦
            request_url h1 (uri_end - skip - e)
              (if matched then drop e (drop skip svl) else drop skip svl)
      ]
]

unfoldable pub request_line : Request → Bytes → Option Request
request_line h svl = elim (find svl space) [
  | none ↦ none
  | some method_end ↦
      let name = take method_end svl in
      request_target (record h { method_str = name; method = get_method name })
        (drop (method_end + 1) svl)
]
