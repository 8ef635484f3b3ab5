-- ===== src/Server/Named.antt =====
-- Which services a request may ask for, from its line on.
use hcpp.Common.{
  ℕ, true, false, ◌&&◌, [], Option, none, some, Bytes, equal, ◌≡◌, ◌⊎◌, inl, inr, refl, sym, subst,
  ◌∙◌, Bool-cases, Option-cases, take, codes,
}
use hcpp.Memory.{Memory}
use hcpp.Http.Headers.{parser_header, Outcome, parsed}
use hcpp.Http.Request.{Request, request_line}
use hcpp.Http.Request.Accepted.{IsService, HasService}
use hcpp.Http.Request.Safe.{request_line-HasService}
use hcpp.Http.Parsers.{
  Parse, broken, refused, accepted, parser_reuqest_line, request_headers, first_line,
}
use hcpp.Server.{InterceptSet, HttpHandler, find_set}
use hcpp.Server.Round.{Target, retarget}

-- A service that a request line may name, or the host that an interceptor puts in its place.
abbrev pub IsNamed : HttpHandler → Bytes → Bytes → Type 0
IsNamed hh host port =
    IsService host port
    ⊎ ((j : Bytes) × (i : InterceptSet) × (find_set j hh ≡ some i) × (host ≡ i.url))

-- A request has one, or no host at all.
abbrev pub MayAsk : HttpHandler → Request → Type 0
MayAsk hh r = (r.host ≡ []) ⊎ IsNamed hh r.host r.port

retarget-cases :
    (hh : HttpHandler) (r : Request) (t : Target)
    → ((retarget hh r t).0 ≡ r)
      ⊎ ((i : InterceptSet) × (find_set r.host hh ≡ some i)
          × ((retarget hh r t).0 ≡ record r { host = i.url }))
unfolding retarget
retarget-cases hh r t = elim (Bool-cases (equal r.host t.host && equal r.port t.svc)) [
  | inl a ↦ inl (rw (retarget, a) refl)
  | inr a ↦ elim (Option-cases (find_set r.host hh)) [
    | inl b ↦ inl (rw (retarget, a, b) refl)
    | inr (i, b) ↦ elim (Bool-cases (equal i.url [])) [
      | inl c ↦ inl (rw (retarget, a, b, c) refl)
      | inr c ↦ inr (i, b, rw (retarget, a, b, c) refl)
    ]
  ]
]

pub retarget-MayAsk :
    (hh : HttpHandler) (r : Request) (t : Target) → MayAsk hh r → MayAsk hh (retarget hh r t).0
retarget-MayAsk hh r t m = elim (retarget-cases hh r t) [
  | inl e ↦ subst (MayAsk hh) (sym e) m
  | inr (i, f, e) ↦ subst (MayAsk hh) (sym e) (inr (inr (r.host, i, f, refl)))
]

unfoldable pub Keeps : (Request → Type 0) → Parse Request → Type 0
Keeps Q broken = Unit {0}
Keeps Q refused = Unit {0}
Keeps Q (accepted r) = Q r

pub request_headers-MayAsk :
    (hh : HttpHandler) (M : Memory) (r : Request) (n : ℕ) (m : M.Mem)
    → MayAsk hh r
    → Keeps (MayAsk hh) (request_headers M r n m).0
unfolding request_headers Keeps
request_headers-MayAsk hh M r n m a = go (parser_header (take n (M.get_some m)) r.headers) refl
  where
    go :
        (o : Outcome)
        → parser_header (take n (M.get_some m)) r.headers ≡ o
        → Keeps (MayAsk hh) (request_headers M r n m).0
    go Outcome.undefined e = rw (request_headers, e) tt
    go Outcome.unfinished e = rw (request_headers, e) tt
    go (parsed true headers) e = rw (request_headers, e) a
    go (parsed false headers) e = rw (request_headers, e) tt

unfoldable pub KeepsLine : (Request → Type 0) → Option (Request × ℕ) → Type 0
KeepsLine Q none = Unit {0}
KeepsLine Q (some (r, n)) = Q r

pub line-MayAsk :
    (hh : HttpHandler) (M : Memory) (first : Request) (m : M.Mem)
    → MayAsk hh first
    → KeepsLine (MayAsk hh) (parser_reuqest_line M first m).0
unfolding parser_reuqest_line KeepsLine
line-MayAsk hh M first m a =
    let svl = first_line (M.async_load_until (codes "\r\n\r\n") m).0 in
    elim (Option-cases (request_line first svl)) [
      | inl e ↦ rw (parser_reuqest_line, e) tt
      | inr (r, e) ↦ rw (parser_reuqest_line, e) (may_ask r (request_line-HasService first r svl e))
    ]
  where
    may_ask : (r : Request) → HasService first r → MayAsk hh r
    may_ask r (inl (h, p)) = elim a [
      | inl n ↦ inl (h ∙ n)
      | inr n ↦ inr (
          subst (λ x. IsNamed hh x r.port) (sym h) (subst (λ x. IsNamed hh first.host x) (sym p) n))
    ]
    may_ask r (inr s) = inr (inl s)
