-- ===== src/Http/Request/Safe.antt =====
-- What every accepted request line has.
use hcpp.Common.{
  ℕ, ◌+◌, ◌-◌, ◌≤◌, Bool, Option, none, some, ◌≡◌, inl, inr, subst, ◌∙◌, Bytes, length, take, drop,
  if◌then◌else◌, find, Option-cases,
}
use hcpp.Http.Request.{
  Request, request_url, service, service_end, scheme_size, request_target, request_line, space,
  get_method,
}
use hcpp.Http.Request.Accepted.{
  Accepts, Fits, HasService, InUrl, Same, Same-HasService, request_url-Same, service-Fits,
}

IsSafe : Request → Request → Type 0
IsSafe h r = HasService h r × (h.url_param_start ≡ 0 → InUrl r)

url-IsSafe :
    (h g : Request) (o : Option Request)
    → HasService h g
    → g.url_param_start ≡ h.url_param_start
    → Accepts (Same g) o
    → Accepts (IsSafe h) o
unfolding IsSafe Same
url-IsSafe h g none fits start a = tt
url-IsSafe h g (some r) fits start a = (Same-HasService h g r fits a, λ z. a.2 (start ∙ z))

target_rest :
    (h : Request) (n : ℕ) (left right : Bytes) (o : Option (Request × Bool))
    → Fits h o
    → Accepts (IsSafe h) (elim o [
      | none ↦ none
      | some (g, matched) ↦ request_url g n (if matched then left else right)
    ])
target_rest h n left right none f = tt
target_rest h n left right (some (g, matched)) (fits, same) =
    let svl = if matched then left else right in
    url-IsSafe h g (request_url g n svl) fits same (request_url-Same g n svl)

request_target-IsSafe : (h : Request) (svl : Bytes) → Accepts (IsSafe h) (request_target h svl)
unfolding request_target
request_target-IsSafe h svl = elim (Option-cases (find svl space)) [
  | inl e ↦ simp (request_target, e) tt
  | inr (k, e) ↦
      let skip = scheme_size h svl in
      let uri = take (k - skip) (drop skip svl) in
      let end = service_end h uri in
      simp (request_target, e)
        (target_rest h (k - skip - end) (drop end (drop skip svl)) (drop skip svl)
          (service h (take end uri)) (service-Fits h (take end uri)))
]

line-IsSafe : (h : Request) (svl : Bytes) → Accepts (IsSafe h) (request_line h svl)
unfolding request_line IsSafe
line-IsSafe h svl = elim (Option-cases (find svl space)) [
  | inl f ↦ simp (request_line, f) tt
  | inr (k, f) ↦
      let name = take k svl in
      let g = record h { method_str = name; method = get_method name } in
      simp (request_line, f) (request_target-IsSafe g (drop (k + 1) svl))
]

pub request_line-HasService :
    (h r : Request) (svl : Bytes) → request_line h svl ≡ some r → HasService h r
unfolding IsSafe
request_line-HasService h r svl e = (subst (Accepts (IsSafe h)) e (line-IsSafe h svl)).0

-- If a request whose path starts at 0 is given a line that is accepted, the request either keeps
-- its host and port or has a nonempty host of letters, digits, `_`, `.` and `-` with a port that
-- is at most 65535, and its path ends inside its url.
pub request_line-IsSafe :
    (h r : Request) (svl : Bytes)
    → h.url_param_start ≡ 0
    → request_line h svl ≡ some r
    → HasService h r × (r.url_param_start ≤ length r.url)
unfolding IsSafe
request_line-IsSafe h r svl z e =
    let safe = subst (Accepts (IsSafe h)) e (line-IsSafe h svl) in (safe.0, safe.1 z)
