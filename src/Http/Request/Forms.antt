-- ===== src/Http/Request/Forms.antt =====
-- The two forms of a request line that a client of the proxy sends: with a whole url, and CONNECT.
use hcpp.Common.{
  ℕ, ◌-◌, true, false, [], ◌∷◌, ◌++◌, none, some, ◌≡◌, refl, ap, ◌∙◌, arith, Bytes, length, take,
  drop, equal, find, starts_with, codes, append_assoc, length-append, Lacks, find-byte,
  Lacks-append, take-front, drop-front, drop-byte, take-all,
}
use hcpp.Http.Headers.{crlf}
use hcpp.Http.Request.{
  Request, is_connect, host_char, with_url, request_url, service, service_end, scheme_size,
  request_target, request_line, space, get_method, connect, other,
}
use hcpp.Http.Request.Parts.{
  IsEndpoint, IsVersion, service-form, http_version-form, IsEndpoint-Lacks,
}

-- The parts of a request line with a whole url: its path begins behind a slash.
pub record IsAbsolute (name host port path major minor : Bytes) : Type 0 where
  pub name_plain : Lacks b' ' name
  pub no_connect : equal name (codes "CONNECT") ≡ false
  pub endpoint : IsEndpoint host port
  pub path_plain : Lacks b' ' path
  pub version : IsVersion major minor

abbrev pub version_of : Bytes → Bytes → Bytes
version_of major minor = codes "HTTP/" ++ (major ++ (b'.' ∷ minor))

request_url-form :
    (h : Request) (path major minor : Bytes)
    → is_connect h.method ≡ false
    → IsVersion major minor
    → request_url h
        (length (b'/' ∷ path))
        ((b'/' ∷ path) ++ (b' ' ∷ (version_of major minor ++ crlf)))
      ≡ some (record (with_url h (b'/' ∷ path)) { version = version_of major minor })
unfolding request_url
request_url-form h path major minor m v =
    let url = b'/' ∷ path in
    let behind = version_of major minor ++ crlf in
    rw (request_url, m, take-front url (b' ' ∷ behind), drop-byte b' ' url behind)
      (http_version-form (with_url h url) major minor v)

target_round :
    (h g : Request) (svl uri place left : Bytes) (k skip : ℕ)
    → find svl space ≡ some k
    → scheme_size h svl ≡ skip
    → take (k - skip) (drop skip svl) ≡ uri
    → take (service_end h uri) uri ≡ place
    → service h place ≡ some (g, true)
    → drop (service_end h uri) (drop skip svl) ≡ left
    → request_target h svl ≡ request_url g (k - skip - service_end h uri) left
unfolding request_target
target_round h g svl uri place left k skip a b c d e f =
    rw (request_target, a, b, c, d, e, b, c, f) refl

request_target-absolute :
    (h : Request) (name host port path major minor : Bytes)
    → is_connect h.method ≡ false
    → IsAbsolute name host port path major minor
    → let url = b'/' ∷ path in
      request_target h (
        (codes "http://" ++ ((host ++ (b':' ∷ port)) ++ url))
        ++ (b' ' ∷ (version_of major minor ++ crlf)))
      ≡ some (record (with_url (record h { host = host; port = port }) url) {
        version = version_of major minor;
      })
request_target-absolute h name host port path major minor m a =
    let url = b'/' ∷ path in
    let place = host ++ (b':' ∷ port) in
    let behind = b' ' ∷ (version_of major minor ++ crlf) in
    let uri = place ++ url in
    let line = (codes "http://" ++ uri) ++ behind in
    let slash : host_char b'/' ≡ false = unfold host_char in refl in
    let blank : host_char b' ' ≡ false = unfold host_char in refl in
    let no_slash = IsEndpoint-Lacks host port b'/' a.endpoint slash (omega arith) in
    let no_blank = IsEndpoint-Lacks host port b' ' a.endpoint blank (omega arith) in
    let plain : Lacks b' ' uri = Lacks-append b' ' place url no_blank (omega arith, a.path_plain) in
    let scheme : Lacks b' ' (codes "http://") = ground arith in
    let whole : Lacks b' ' (codes "http://" ++ uri) =
      Lacks-append b' ' (codes "http://") uri scheme plain in
    let found = find-byte b' ' (codes "http://" ++ uri) (version_of major minor ++ crlf) whole in
    let skip : scheme_size h line ≡ 7 = unfold scheme_size in unfold starts_with in rw m refl in
    let end : service_end h uri ≡ length place =
      unfold service_end in rw (m, find-byte b'/' place path no_slash) refl in
    let g = record h { host = host; port = port } in
    let front : take (service_end h uri) uri ≡ place =
      ap (λ n. take n uri) end ∙ take-front place url in
    let left : drop (service_end h uri) (uri ++ behind) ≡ url ++ behind =
      ap (λ n. drop n (uri ++ behind)) end
      ∙ ap (drop (length place)) (append_assoc place url behind)
      ∙ drop-front place (url ++ behind) in
    let size : length (codes "http://" ++ uri) - 7 - service_end h uri ≡ length url =
      omega (arith, end, length-append place url) in
    target_round h g line uri place (url ++ behind) (length (codes "http://" ++ uri)) 7 found skip
      (ap (λ n. take n (uri ++ behind)) {x = length (codes "http://" ++ uri) - 7} {y = length uri}
          (omega arith)
        ∙ take-front uri behind)
      front (service-form h host port a.endpoint) left
    ∙ ap (λ n. request_url g n (url ++ behind)) size
    ∙ request_url-form g path major minor m a.version

request_target-connect :
    (h : Request) (host port major minor : Bytes)
    → is_connect h.method ≡ true
    → IsEndpoint host port
    → IsVersion major minor
    → request_target h ((host ++ (b':' ∷ port)) ++ (b' ' ∷ (version_of major minor ++ crlf)))
      ≡ some (record h { host = host; port = port; version = version_of major minor })
request_target-connect h host port major minor m p v =
    let place = host ++ (b':' ∷ port) in
    let behind = b' ' ∷ (version_of major minor ++ crlf) in
    let blank : host_char b' ' ≡ false = unfold host_char in refl in
    let found =
      find-byte b' ' place (version_of major minor ++ crlf)
        (IsEndpoint-Lacks host port b' ' p blank (omega arith)) in
    let skip : scheme_size h (place ++ behind) ≡ 0 = unfold scheme_size in rw m refl in
    let end : service_end h place ≡ length place = unfold service_end in rw m refl in
    let g = record h { host = host; port = port } in
    let uri =
      ap (λ n. take n (place ++ behind)) {x = length place - 0} {y = length place} (omega arith)
      ∙ take-front place behind in
    let front : take (service_end h place) place ≡ place =
      ap (λ n. take n place) end ∙ take-all (length place) place (omega arith) in
    let left = ap (λ n. drop n (place ++ behind)) end ∙ drop-front place behind in
    let size : length place - 0 - service_end h place ≡ 0 = omega (arith, end) in
    let last : request_url g 0 behind ≡ some (record g { version = version_of major minor }) =
      unfold request_url in rw (request_url, m) (http_version-form g major minor v) in
    target_round h g (place ++ behind) place place behind (length place) 0 found skip uri front
      (service-form h host port p) left
    ∙ ap (λ n. request_url g n behind) size
    ∙ last

line_round :
    (h : Request) (name behind : Bytes)
    → Lacks b' ' name
    → request_line h (name ++ (b' ' ∷ behind))
      ≡ request_target (record h { method_str = name; method = get_method name }) behind
unfolding request_line
line_round h name behind a =
    rw
      (
        request_line,
        find-byte b' ' name behind a,
        take-front name (b' ' ∷ behind),
        drop-byte b' ' name behind,
      )
      refl

-- A line of a method that is not CONNECT, a whole url with a host, a port and a path, and a
-- version, each in the form that the code takes, is accepted: the request has exactly these parts,
-- and keeps its other fields.
pub request_line-absolute :
    (h : Request) (name host port path major minor : Bytes)
    → IsAbsolute name host port path major minor
    → let url = b'/' ∷ path in
      request_line h (
        name
        ++ (b' '
            ∷ ((codes "http://" ++ ((host ++ (b':' ∷ port)) ++ url))
                ++ (b' ' ∷ (version_of major minor ++ crlf)))))
      ≡ some (record h {
        method_str = name;
        method = other;
        host = host;
        port = port;
        url = url;
        url_param_start = elim (find url (b'?' ∷ [])) [ none ↦ length url | some p ↦ p ];
        version = version_of major minor;
      })
unfolding with_url
request_line-absolute h name host port path major minor a =
    let known : get_method name ≡ other = unfold get_method in rw a.no_connect refl in
    let g = record h { method_str = name; method = other } in
    let behind =
      (codes "http://" ++ ((host ++ (b':' ∷ port)) ++ (b'/' ∷ path)))
      ++ (b' ' ∷ (version_of major minor ++ crlf)) in
    line_round h name behind a.name_plain
    ∙ ap (λ m. request_target (record h { method_str = name; method = m }) behind) known
    ∙ request_target-absolute g name host port path major minor refl a

-- A line of CONNECT, a host and a port, and a version, in the form that the code takes, is
-- accepted: the request has exactly these parts, and keeps its other fields.
pub request_line-connect :
    (h : Request) (host port major minor : Bytes)
    → IsEndpoint host port
    → IsVersion major minor
    → request_line h
        (codes "CONNECT " ++ ((host ++ (b':' ∷ port)) ++ (b' ' ∷ (version_of major minor ++ crlf))))
      ≡ some (record h {
        method_str = codes "CONNECT";
        method = connect;
        host = host;
        port = port;
        version = version_of major minor;
      })
request_line-connect h host port major minor p v =
    let plain : Lacks b' ' (codes "CONNECT") = ground arith in
    let known : get_method (codes "CONNECT") ≡ connect =
      unfold get_method in unfold equal in refl in
    let g = record h { method_str = codes "CONNECT"; method = connect } in
    let behind = (host ++ (b':' ∷ port)) ++ (b' ' ∷ (version_of major minor ++ crlf)) in
    line_round h (codes "CONNECT") behind plain
    ∙ ap (λ m. request_target (record h { method_str = codes "CONNECT"; method = m }) behind) known
    ∙ request_target-connect g host port major minor refl p v
