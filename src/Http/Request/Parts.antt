-- ===== src/Http/Request/Parts.antt =====
-- What `endpoint`, `service` and the version's test give on parts in the right form.
use hcpp.Common.{
  ℕ, suc, ◌+◌, ◌-◌, ◌≤◌, ◌<◌, Bool, true, false, ◌&&◌, [], ◌∷◌, ◌++◌, some, ◌≡◌, ◌≢◌, refl, sym, ap,
  ◌∙◌, arith, Bytes, length, take, ltb, leb, if◌then◌else◌, find, starts_with, codes, strtoul,
  Bool-cases, inl, inr, length-append, Lacks, find-pair, Lacks-append, take-front,
}
use hcpp.Http.Headers.{crlf, digit}
use hcpp.Http.Request.{
  Request, host_char, span, all, port_text, endpoint, version_text, http_version, service,
}

and-split : (a b : Bool) → (a && b) ≡ true → (a ≡ true) × (b ≡ true)
and-split a b e = (ground (arith, e), ground (arith, e))

span-stop :
    (test : ℕ → Bool) (l behind : Bytes) (c : ℕ)
    → all test l ≡ true
    → test c ≡ false
    → span test (l ++ (c ∷ behind)) ≡ (l, c ∷ behind)
unfolding span all
span-stop test [] behind c a e = ground (arith, e)
span-stop test (x ∷ xs) behind c a e =
    let (here, later) = and-split (test x) (all test xs) a in
    rw (span, here, span-stop test xs behind c later e) refl

all-Lacks : (test : ℕ → Bool) (l : Bytes) (c : ℕ) → all test l ≡ true → test c ≡ false → Lacks c l
unfolding all
all-Lacks test [] c a e = tt
all-Lacks test (x ∷ xs) c a e =
    let (here, later) = and-split (test x) (all test xs) a in
    (
      λ s. let clash : true ≡ false = sym here ∙ ap test s ∙ e in absurd (ground (arith, clash)),
      all-Lacks test xs c later e,
    )

-- A host name and a port in the form that the pattern takes.
pub record IsEndpoint (host port : Bytes) : Type 0 where
  pub some_byte : 0 < length host
  pub plain : all host_char host ≡ true
  pub number : port_text port ≡ true
  pub small : strtoul 10 port ≤ 65535

pub endpoint-form :
    (host port : Bytes)
    → IsEndpoint host port
    → endpoint (host ++ (b':' ∷ port)) ≡ some (host, some port)
unfolding endpoint
endpoint-form [] port p = absurd (omega (arith, p.some_byte))
endpoint-form (c ∷ cs) port p =
    let stop : host_char b':' ≡ false = unfold host_char in refl in
    let cut = span-stop host_char (c ∷ cs) port b':' p.plain stop in
    rw (endpoint, ap (λ t. t.0) cut, ap (λ t. t.1) cut, p.number) refl

pub service-form :
    (h : Request) (host port : Bytes)
    → IsEndpoint host port
    → service h (host ++ (b':' ∷ port)) ≡ some (record h { host = host; port = port }, true)
unfolding service
service-form h host port p =
    let small : ltb 65535 (strtoul 10 port) ≡ false = ground (arith, p.small) in
    rw (service, endpoint-form host port p, small) refl

-- The digits of a version: 1 to 5, and 1 to 10.
pub record IsVersion (major minor : Bytes) : Type 0 where
  pub major_digits : all digit major ≡ true
  pub minor_digits : all digit minor ≡ true
  pub some_major : 1 ≤ length major
  pub short_major : length major ≤ 5
  pub some_minor : 1 ≤ length minor
  pub short_minor : length minor ≤ 10

pub version_text-form :
    (major minor : Bytes) → IsVersion major minor → version_text (major ++ (b'.' ∷ minor)) ≡ true
unfolding version_text
version_text-form major minor v =
    let stop : digit b'.' ≡ false = unfold digit in refl in
    let cut = span-stop digit major minor b'.' v.major_digits stop in
    let m1 : leb 1 (length major) ≡ true = ground (arith, v.some_major) in
    let m2 : leb (length major) 5 ≡ true = ground (arith, v.short_major) in
    let n1 : leb 1 (length minor) ≡ true = ground (arith, v.some_minor) in
    let n2 : leb (length minor) 10 ≡ true = ground (arith, v.short_minor) in
    rw (version_text, ap (λ t. t.1) cut, ap (λ t. t.0) cut, m1, m2, n1, n2, v.minor_digits) refl

pub http_version-form :
    (h : Request) (major minor : Bytes)
    → IsVersion major minor
    → http_version h (codes "HTTP/" ++ ((major ++ (b'.' ∷ minor)) ++ crlf))
      ≡ some (record h { version = codes "HTTP/" ++ (major ++ (b'.' ∷ minor)) })
unfolding http_version
http_version-form h major minor v =
    let d : digit b'\r' ≡ false = unfold digit in refl in
    let text = major ++ (b'.' ∷ minor) in
    let minor_lacks = all-Lacks digit minor b'\r' v.minor_digits d in
    let lacks =
      Lacks-append b'\r' major (b'.' ∷ minor) (all-Lacks digit major b'\r' v.major_digits d)
        (omega arith, minor_lacks) in
    let line = codes "HTTP/" ++ (text ++ crlf) in
    let size : length line ≡ length text + 7 = omega (arith, length-append text crlf) in
    let cut : take (length line - 2) line ≡ codes "HTTP/" ++ text =
      ap (λ n. take n line) {x = length line - 2} {y = suc (suc (suc (suc (suc (length text)))))}
        (omega (arith, size))
      ∙ ap (◌++◌ (codes "HTTP/")) (take-front text crlf) in
    let long : ltb (length line) 2 ≡ false = ground (arith, size) in
    let chosen =
      ap (λ b. some (record h { version = if b then line else codes "HTTP/" ++ text })) long in
    let starts : starts_with line (codes "HTTP/") ≡ true = unfold starts_with in refl in
    let found : find (text ++ crlf) crlf ≡ some (length text) =
      find-pair b'\r' b'\n' text [] lacks in
    rw (http_version, starts, found, take-front text crlf, version_text-form major minor v, cut)
      chosen

digit-byte : (c : ℕ) → digit c ≡ true → host_char c ≡ true
unfolding digit host_char
digit-byte c e = ground (arith, e)

port-Lacks : (port : Bytes) (c : ℕ) → port_text port ≡ true → digit c ≡ false → Lacks c port
unfolding port_text digit all
port-Lacks [] c e f = tt
port-Lacks (x ∷ xs) c e f = (
  λ s.
      let clash : true ≡ false = sym (first x xs e) ∙ ap digit s ∙ f in
      absurd (ground (arith, clash)),
  all-Lacks digit xs c (others x xs e) f,
)
  where
    first : (x : ℕ) (xs : Bytes) → port_text (x ∷ xs) ≡ true → digit x ≡ true
    first x xs e = ground (arith, e)

    others : (x : ℕ) (xs : Bytes) → port_text (x ∷ xs) ≡ true → all digit xs ≡ true
    others x [] e = refl
    others x (y ∷ ys) e = ground (arith, e)

not-digit : (c : ℕ) → host_char c ≡ false → digit c ≡ false
not-digit c e = elim (Bool-cases (digit c)) [
  | inl d ↦ let clash : true ≡ false = sym (digit-byte c d) ∙ e in absurd (ground (arith, clash))
  | inr d ↦ d
]

pub IsEndpoint-Lacks :
    (host port : Bytes) (c : ℕ)
    → IsEndpoint host port
    → host_char c ≡ false
    → c ≢ b':'
    → Lacks c (host ++ (b':' ∷ port))
IsEndpoint-Lacks host port c p e f =
    Lacks-append c host (b':' ∷ port) (all-Lacks host_char host c p.plain e)
      ((λ s. f (sym s)), port-Lacks port c p.number (not-digit c e))
