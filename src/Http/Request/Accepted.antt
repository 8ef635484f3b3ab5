-- ===== src/Http/Request/Accepted.antt =====
-- What the parts of an accepted request line have.
use hcpp.Common.{
  ℕ, suc, ◌+◌, ◌≤◌, ◌<◌, Bool, true, ◌&&◌, [], ◌∷◌, Option, none, some, ◌≡◌, ◌⊎◌, inl, inr, refl,
  sym, ap, subst, ◌∙◌, arith, Bytes, length, take, drop, ltb, ◌==◌, equal, find, starts_with, codes,
  strtoul, Bool-cases, Option-cases, find-within,
}
use hcpp.Http.Headers.{crlf}
use hcpp.Http.Request.{
  Request, is_connect, host_char, span, all, port_text, endpoint, version_text, http_version,
  with_url, request_url, service,
}

-- A host of the bytes that a host name may have, with a port that is a number below 2 ^ 16.
pub record IsService (host port : Bytes) : Type 0 where
  pub some_byte : 0 < length host
  pub plain : all host_char host ≡ true
  pub small : strtoul 10 port ≤ 65535

abbrev pub HasService : Request → Request → Type 0
HasService h r = ((r.host ≡ h.host) × (r.port ≡ h.port)) ⊎ IsService r.host r.port

abbrev pub Accepts : (Request → Type 0) → Option Request → Type 0
Accepts P none = Unit {0}
Accepts P (some r) = P r

span-all : (test : ℕ → Bool) (text : Bytes) → all test (span test text).0 ≡ true
unfolding span all
span-all test [] = refl
span-all test (c ∷ cs) = ground (arith, span-all test cs)

-- The path of the url ends inside the url.
abbrev pub InUrl : Request → Type 0
InUrl r = r.url_param_start ≤ length r.url

unfoldable pub Same : Request → Request → Type 0
Same h r = (r.host ≡ h.host) × (r.port ≡ h.port) × (h.url_param_start ≡ 0 → InUrl r)

Keeps : Request → Request → Type 0
Keeps h r =
    (r.host ≡ h.host)
    × (r.port ≡ h.port)
    × (r.url ≡ h.url)
    × (r.url_param_start ≡ h.url_param_start)

http_version-Keeps : (h : Request) (svl : Bytes) → Accepts (Keeps h) (http_version h svl)
unfolding http_version Keeps
http_version-Keeps h svl = elim (Bool-cases (starts_with svl (codes "HTTP/"))) [
  | inl e ↦ elim (Option-cases (find (drop 5 svl) crlf)) [
    | inl f ↦ simp (e, f) tt
    | inr (k, f) ↦ elim (Bool-cases (version_text (take k (drop 5 svl)))) [
      | inl g ↦ simp (e, f, g) (refl, refl, refl, refl)
      | inr g ↦ simp (e, f, g) tt
    ]
  ]
  | inr e ↦ simp e tt
]

with_url-Same : (h : Request) (text : Bytes) → Same h (with_url h text)
unfolding with_url Same
with_url-Same h [] = elim (Bool-cases (equal h.host [])) [
  | inl e ↦ simp e (refl, refl, λ b. omega (arith, b))
  | inr e ↦ simp e (refl, refl, λ b. omega (arith, b))
]
with_url-Same h (c ∷ cs) =
    (refl, refl, λ b. position (find (c ∷ cs) (b'?' ∷ [])) (find-within (c ∷ cs) (b'?' ∷ [])))
  where
    position :
        (o : Option ℕ)
        → ((k : ℕ) → o ≡ some k → k ≤ length (c ∷ cs))
        → elim o [ none ↦ length (c ∷ cs) | some p ↦ p ] ≤ length (c ∷ cs)
    position none f = omega arith
    position (some p) f = f p refl

Same-Accepts :
    (h g : Request) (o : Option Request) → Same h g → Accepts (Keeps g) o → Accepts (Same h) o
unfolding Same Keeps
Same-Accepts h g none s a = tt
Same-Accepts h g (some r) s a =
    (a.0 ∙ s.0, a.1 ∙ s.1, λ b. omega (arith, s.2 b, ap length a.2, a.3))

pub request_url-Same : (h : Request) (n : ℕ) (svl : Bytes) → Accepts (Same h) (request_url h n svl)
unfolding request_url Same
request_url-Same h n svl = elim (Bool-cases (is_connect h.method)) [
  | inl e ↦
      let o = http_version h (drop (n + 1) svl) in
      let there : Accepts (Same h) o =
        Same-Accepts h h o (refl, refl, λ b. omega (arith, b))
          (http_version-Keeps h (drop (n + 1) svl)) in
      simp e there
  | inr e ↦
      let g = with_url h (take n svl) in
      let o = http_version g (drop (n + 1) svl) in
      let there : Accepts (Same h) o =
        Same-Accepts h g o (with_url-Same h (take n svl))
          (http_version-Keeps g (drop (n + 1) svl)) in
      simp e there
]

pub Same-HasService : (h g r : Request) → HasService h g → Same g r → HasService h r
unfolding Same
Same-HasService h g r (inl s) (a, b, u) = inl (a ∙ s.0, b ∙ s.1)
Same-HasService h g r (inr s) (a, b, u) = inr (record {
  some_byte = subst (λ x. 0 < length x) (sym a) s.some_byte;
  plain = ap (all host_char) a ∙ s.plain;
  small = subst (λ x. strtoul 10 x ≤ 65535) (sym b) s.small;
})

List-cases : (xs : Bytes) → (xs ≡ []) ⊎ ((y : ℕ) × (ys : Bytes) × (xs ≡ y ∷ ys))
List-cases [] = inl refl
List-cases (y ∷ ys) = inr (y, ys, refl)

abbrev Names : Option (Bytes × Option Bytes) → Type 0
Names none = Unit {0}
Names (some e) = (0 < length e.0) × (all host_char e.0 ≡ true)

endpoint-Names : (text : Bytes) → Names (endpoint text)
unfolding endpoint
endpoint-Names text = elim (List-cases (span host_char text).0) [
  | inl e ↦ simp (endpoint, e) tt
  | inr (c, cs, e) ↦
      let named : (0 < suc (length cs)) × (all host_char (c ∷ cs) ≡ true) =
        (omega arith, ap (all host_char) (sym e) ∙ span-all host_char text) in
      elim (List-cases (span host_char text).1) [
        | inl f ↦ simp (endpoint, e, f) named
        | inr (d, ds, f) ↦ elim (Bool-cases (d == b':' && port_text ds)) [
          | inl g ↦ simp (endpoint, e, f, g) named
          | inr g ↦ simp (endpoint, e, f, g) tt
        ]
      ]
]

small_default : strtoul 10 (codes "80") ≤ 65535
unfolding strtoul
small_default = omega arith

abbrev pub Fits : Request → Option (Request × Bool) → Type 0
Fits h none = Unit {0}
Fits h (some s) = HasService h s.0 × (s.0.url_param_start ≡ h.url_param_start)

pub service-Fits : (h : Request) (text : Bytes) → Fits h (service h text)
unfolding service
service-Fits h text = go (endpoint text) refl (endpoint-Names text)
  where
    go : (o : Option (Bytes × Option Bytes)) → endpoint text ≡ o → Names o → Fits h (service h text)
    go none e n = simp (service, e) (inl (refl, refl), refl)
    go (some (host, none)) e n =
        simp (service, e)
          (inr (record { some_byte = n.0; plain = n.1; small = small_default }), refl)
    go (some (host, some p)) e n = elim (Bool-cases (ltb 65535 (strtoul 10 p))) [
      | inl f ↦ simp (service, e, f) tt
      | inr f ↦
          let small : strtoul 10 p ≤ 65535 = ground arith in
          simp (service, e, f) (inr (record { some_byte = n.0; plain = n.1; small = small }), refl)
    ]
