-- ===== src/Server/Asked.antt =====
-- Which services `http_do` asks its keeper for.
use hcpp.Common.{
  ℕ, zero, suc, false, [], Option, none, some, Bytes, equal, equal_iff, ◌≡◌, inl, inr, refl, sym,
  ◌∙◌, arith, Bool-cases,
}
use hcpp.Memory.{Memory}
use hcpp.Http.Request.{Request, is_connect}
use hcpp.Http.Parsers.{Response, Parse, broken, refused, accepted, request_headers}
use hcpp.Server.{InterceptSet, HttpHandler}
use hcpp.Server.Round.{
  ServiceKeeper, retarget, Passed, Loop, Round, running, thrown, undefined, stopped, tunnelled,
  next, responded, with_response, reply, forward, control, serve, with_headers, with_line,
  http_round, http_do, passed, answer,
}
use hcpp.Server.Named.{
  IsNamed, Keeps, KeepsLine, MayAsk, line-MayAsk, request_headers-MayAsk, retarget-MayAsk,
}

module _ (C S : Memory) (sk : ServiceKeeper S) (hh : HttpHandler) where
  open sk use {Keeper, wait, keep}

  -- What holds of the keeper while it is asked for named services only.
  pub record IsKept (P : Keeper → Type 0) : Type 0 where
    pub waits :
        (host port : Bytes) (is : Option InterceptSet) (k : Keeper)
        → IsNamed hh host port
        → P k
        → P (wait host port is k).1
    pub keeps : (w : S.Mem) (k : Keeper) → P k → P (keep w k)

  abbrev pub Holds : (Keeper → Type 0) → Round C S sk hh → Type 0
  Holds P (next l) = P l.keeper
  Holds P (tunnelled r l) = P l.keeper × MayAsk hh r
  Holds P (stopped ss) = Unit {0}
  Holds P running = Unit {0}
  Holds P thrown = Unit {0}
  Holds P undefined = Unit {0}

  module _ (P : Keeper → Type 0) (kept : IsKept P) where
    open kept use {waits, keeps}

    responded-Holds :
        (l : Loop C S sk hh) (p : Passed C S sk hh S.Mem C.Mem)
        → P l.keeper
        → Holds P (responded C S sk hh l p)
    unfolding responded
    responded-Holds l running h = tt
    responded-Holds l thrown h = tt
    responded-Holds l (passed w ss) h = keeps w l.keeper h

    with_response-Holds :
        (fuel : ℕ) (w : S.Mem) (l : Loop C S sk hh) (p : Parse Response)
        → P l.keeper
        → Holds P (with_response C S sk hh fuel w l p)
    unfolding with_response answer
    with_response-Holds fuel w l broken h = tt
    with_response-Holds fuel w l refused h = keeps w l.keeper h
    with_response-Holds fuel w l (accepted rp) h = responded-Holds l _ h

    reply-Holds :
        (fuel : ℕ) (l : Loop C S sk hh) (p : Passed C S sk hh C.Mem S.Mem)
        → P l.keeper
        → Holds P (reply C S sk hh fuel l p)
    unfolding reply
    reply-Holds fuel l running h = tt
    reply-Holds fuel l thrown h = tt
    reply-Holds fuel l (passed ss w) h = with_response-Holds fuel _ _ _ h

    control-Holds :
        (r : Request) (l : Loop C S sk hh) (o : Option (Bytes → Bytes))
        → P l.keeper
        → Holds P (control C S sk hh r l o)
    unfolding control answer
    control-Holds r l none h = h
    control-Holds r l (some f) h = h

    -- A request with a host that is not empty is for a named service.
    named : (r : Request) → MayAsk hh r → equal r.host [] ≡ false → IsNamed hh r.host r.port
    named r (inl e) f = absurd (ground (arith, sym ((equal_iff r.host []).1 e) ∙ f))
    named r (inr n) f = n

    serve-Holds :
        (fuel : ℕ) (r : Request) (l : Loop C S sk hh)
        → MayAsk hh r
        → P l.keeper
        → Holds P (serve C S sk hh fuel r l)
    unfolding serve forward
    serve-Holds fuel r l m h = elim (Bool-cases (is_connect r.method)) [
      | inl a ↦ rw (serve, a) (h, m)
      | inr a ↦ elim (Bool-cases (equal r.host [])) [
        | inl b ↦ rw (serve, a, b) (control-Holds r l _ h)
        | inr b ↦
            rw (serve, a, b)
              (reply-Holds fuel _ _ (waits r.host r.port l.target.is l.keeper (named r m b) h))
      ]
    ]

    with_headers-Holds :
        (fuel : ℕ) (l : Loop C S sk hh) (p : Parse Request)
        → Keeps (MayAsk hh) p
        → P l.keeper
        → Holds P (with_headers C S sk hh fuel l p)
    unfolding with_headers answer Keeps
    with_headers-Holds fuel l broken a h = tt
    with_headers-Holds fuel l refused a h = h
    with_headers-Holds fuel l (accepted r) a h = serve-Holds fuel r l a h

    with_line-Holds :
        (fuel : ℕ) (l : Loop C S sk hh) (o : Option (Request × ℕ))
        → KeepsLine (MayAsk hh) o
        → P l.keeper
        → Holds P (with_line C S sk hh fuel l o)
    unfolding with_line answer KeepsLine
    with_line-Holds fuel l none a h = h
    with_line-Holds fuel l (some (r, n)) a h =
        let r1 = (retarget hh r l.target).0 in
        with_headers-Holds fuel _ (request_headers C r1 n l.client).0
          (request_headers-MayAsk hh C r1 n l.client (retarget-MayAsk hh r l.target a)) h

    http_round-Holds :
        (first : Request) (fuel : ℕ) (l : Loop C S sk hh)
        → MayAsk hh first
        → P l.keeper
        → Holds P (http_round C S sk hh first fuel l)
    unfolding http_round
    http_round-Holds first fuel l a h = elim (Bool-cases (C.ok (C.reset l.client))) [
      | inl e ↦
          rw (http_round, e)
            (with_line-Holds fuel _ _ (line-MayAsk hh C first (C.reset l.client) a) h)
      | inr e ↦ rw (http_round, e) tt
    ]

    -- For every keeper of services and every property of it that survives questions for named
    -- services (a nonempty host of letters, digits, `_`, `.` and `-` with a port of at most 65535,
    -- or a host that an interceptor puts in its place) and the return of a connection: whatever
    -- its client sends, if the request that the client starts with names such a service or has no
    -- host, the property holds of the keeper when the loop ends in a tunnel, and the tunnel's
    -- request names such a service, or has no host.
    pub http_do-Holds :
        (first : Request) (rounds fuel : ℕ) (l : Loop C S sk hh)
        → MayAsk hh first
        → P l.keeper
        → Holds P (http_do C S sk hh first rounds fuel l)
    unfolding http_do
    http_do-Holds first zero fuel l a h = tt
    http_do-Holds first (suc rounds) fuel l a h =
        go (http_round C S sk hh first fuel l) refl (http_round-Holds first fuel l a h)
          (λ l1. http_do-Holds first rounds fuel l1 a)
      where
        go :
            (t : Round C S sk hh)
            → http_round C S sk hh first fuel l ≡ t
            → Holds P t
            → ((l1 : Loop C S sk hh)
                → P l1.keeper
                → Holds P (http_do C S sk hh first rounds fuel l1))
            → Holds P (http_do C S sk hh first (suc rounds) fuel l)
        go running e g more = rw (http_do, e) tt
        go thrown e g more = rw (http_do, e) tt
        go undefined e g more = rw (http_do, e) tt
        go (stopped ss) e g more = rw (http_do, e) tt
        go (tunnelled r l1) e g more = rw (http_do, e) g
        go (next l1) e g more = rw (http_do, e) (more l1 g)
