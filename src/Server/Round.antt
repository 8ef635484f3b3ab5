-- ===== src/Server/Round.antt =====
-- `http_handler::http_do` of src/httpserver.cpp: the loop over the requests of a client.
use hcpp.Common.{
  ℕ, zero, suc, Bool, true, false, not, ◌&&◌, [], ◌∷◌, ◌++◌, Option, none, some, Bytes, length,
  take, equal, if◌then◌else◌, codes, find, ltb,
}
use hcpp.Memory.{Memory}
use hcpp.Http.Headers.{Headers, Body, chunked, no_body, sized, header, crlf}
use hcpp.Http.Request.{Request, is_connect}
use hcpp.Http.Parsers.{
  Response, new_response, Parse, broken, refused, accepted, parser_reuqest_line, request_headers,
  parser_response_line, response_headers,
}
use hcpp.Http.Chunks.{Sent, transfer_chunk}
use hcpp.Transfer.{transfer_mem}
use hcpp.Transfer.Until.{load_size}
use hcpp.Server.{InterceptSet, default_set, HttpHandler, find_entry, find_set}

-- `service_keeper`: `wait` gives the connection to a service, and `keep` takes it back.
pub record ServiceKeeper (S : Memory) : Type 1 where
  pub Keeper : Type 0
  pub wait : Bytes → Bytes → Option InterceptSet → Keeper → S.Mem × Keeper
  pub keep : S.Mem → Keeper → Keeper

-- `erase` on the map of headers.
unfoldable pub erase_header : Bytes → Headers → Headers
erase_header k [] = []
erase_header k (x ∷ xs) = let rest = erase_header k xs in if equal k x.0 then rest else x ∷ rest

unfoldable pub header_lines_of : Headers → Bytes
header_lines_of [] = []
header_lines_of (x ∷ xs) = x.1 ++ header_lines_of xs

unfoldable pub kept_headers : Headers → Headers
kept_headers h = erase_header (codes "host") (erase_header (codes "proxy-connection") h)

-- What is sent to the service in front of the body.
unfoldable pub req_line : Request → Bytes
req_line r =
    r.method_str
    ++ codes " "
    ++ r.url
    ++ codes " "
    ++ r.version
    ++ crlf
    ++ header_lines_of (kept_headers r.headers)
    ++ codes "Host: "
    ++ r.host
    ++ codes "\r\n\r\n"

abbrev pub bad_request : Bytes
bad_request =
    codes
      "HTTP/1.1 400 Bad Request\r\nContent-Type: text/html; charset=utf-8\r\nContent-Length: 16\r\n\r\nBad Request!"

abbrev pub server_error : Bytes
server_error = codes "HTTP/1.1 500 Error\r\n\r\n"

abbrev pub hello : Bytes
hello =
    codes
      "HTTP/1.1 200 OK\r\nContent-Type: text/html; charset=utf-8\r\nContent-Length: 16\r\n\r\nHello,from http!"

-- Whether the service wants its connection closed.
unfoldable pub wants_close : Headers → Bool
wants_close h = elim (header (codes "connection") h) [
  | none ↦ false
  | some c ↦ elim (find c (codes "close")) [ none ↦ false | some i ↦ true ]
]

-- The variables `host`, `svc` and `is` of the loop.
pub record Target : Type 0 where
  pub host : Bytes
  pub svc : Bytes
  pub is : Option InterceptSet

-- The request's host may be replaced, and with it the target of the loop.
unfoldable pub retarget : HttpHandler → Request → Target → Request × Target
retarget hh r t =
    let found : Request × Option InterceptSet = elim (find_set r.host hh) [
      | none ↦ (r, some default_set)
      | some i ↦
          if equal i.url []
          then (r, some i)
          else (record r { host = i.url }, some (record i { host = i.url }))
    ] in
    if equal r.host t.host && equal r.port t.svc
    then (r, t)
    else (found.0, record { host = found.0.host; svc = r.port; is = found.1 })

module _ (C S : Memory) (sk : ServiceKeeper S) (hh : HttpHandler) where
  open C use {Mem}
  open S use {Mem as Service}
  open sk use {Keeper, wait, keep}

  -- What a transfer of a body leaves in both memories.
  pub data Passed (A B : Type 0) : Type 0 where
    running thrown : Passed A B
    passed : A → B → Passed A B

  -- A body from one memory to another.
  unfoldable pub transfer_body : (A B : Memory) → ℕ → Body → A.Mem → B.Mem → Passed A.Mem B.Mem
  transfer_body A B fuel no_body a b = passed a b
  transfer_body A B fuel (sized n) a b =
      if ltb 0 n
      then elim (transfer_mem A B fuel n a b) [ none ↦ running | some (k, a1, b1) ↦ passed a1 b1 ]
      else passed a b
  transfer_body A B fuel chunked a b = elim (transfer_chunk A B fuel a b) [
    | Sent.unfinished ↦ running
    | Sent.failed ↦ thrown
    | Sent.sent k a1 b1 ↦ passed a1 b1
  ]

  -- A response without a length goes on until the service's end.
  unfoldable pub drain : ℕ → Service → Mem → Passed Service Mem
  drain zero w ss = running
  drain (suc fuel) w ss =
      let (str, w1) = S.async_load_some load_size w in
      let ss1 = C.async_write_all str ss in
      let rest = drain fuel (S.remove_some (length str) w1).1 ss1 in
      if equal str [] then passed w1 ss1 else rest

  unfoldable pub all_that_comes : ℕ → Service → Mem → Passed Service Mem
  all_that_comes fuel w ss =
      let w1 = (S.merge_some w).1 in
      let str = S.get_some w1 in
      if equal str []
      then drain fuel w1 ss
      else drain fuel (S.remove_some (length str) w1).1 (C.async_write_all str ss)

  -- The response's first lines, and its body.
  unfoldable pub send_response : ℕ → Response → Service → Mem → Passed Service Mem
  send_response fuel rp w ss =
      let closing = wants_close rp.headers in
      let w1 = if closing then S.close w else w in
      let ss1 = if closing then C.close ss else ss in
      let ss2 = C.async_write_all (rp.response_line ++ rp.response_header_str) ss1 in
      let without_body = if S.alive w1 then passed w1 ss2 else all_that_comes fuel w1 ss2 in
      elim rp.body [
        | chunked ↦ transfer_body S C fuel chunked w1 ss2
        | no_body ↦ without_body
        | sized n ↦ if ltb 0 n then transfer_body S C fuel (sized n) w1 ss2 else without_body
      ]

  -- Where the loop stands between two requests.
  pub record Loop : Type 0 where
    pub client : Mem
    pub target : Target
    pub keeper : Keeper

  -- How a round ends. A tunnel is the last thing on its connection; an exception ends the
  -- coroutine, as does the end of the client.
  pub data Round : Type 0 where
    running thrown undefined : Round
    stopped : Mem → Round
    tunnelled : Request → Loop → Round
    next : Loop → Round

  unfoldable pub answer : Bytes → Loop → Round
  answer text l = next (record l { client = C.async_write_all text l.client })

  -- Behind the response.
  unfoldable pub responded : Loop → Passed Service Mem → Round
  responded l running = running
  responded l thrown = thrown
  responded l (passed w ss) = next (record l { client = ss; keeper = keep w l.keeper })

  unfoldable pub with_response : ℕ → Service → Loop → Parse Response → Round
  with_response fuel w l broken = undefined
  with_response fuel w l refused = answer server_error (record l { keeper = keep w l.keeper })
  with_response fuel w l (accepted rp) = responded l (send_response fuel rp w l.client)

  -- The response to a request whose body was sent.
  unfoldable pub reply : ℕ → Loop → Passed Mem Service → Round
  reply fuel l running = running
  reply fuel l thrown = thrown
  reply fuel l (passed ss w) =
      let ((rp, n), w1) = parser_response_line S new_response w in
      let (parse, w2) = response_headers S rp n w1 in
      with_response fuel w2 (record l { client = ss }) parse

  unfoldable pub forward : ℕ → Request → Loop → Round
  forward fuel r l =
      let (w, k) = wait r.host r.port l.target.is l.keeper in
      reply fuel (record l { keeper = k })
        (transfer_body C S fuel r.body l.client (S.async_write_all (req_line r) w))

  -- A request for the proxy itself. After a handler's text the source goes on to the error.
  unfoldable pub control : Request → Loop → Option (Bytes → Bytes) → Round
  control r l none = answer hello l
  control r l (some f) =
      answer bad_request (record l { client = C.async_write_all (f r.url) l.client })

  unfoldable pub serve : ℕ → Request → Loop → Round
  serve fuel r l =
      let own = control r l (find_entry (take r.url_param_start r.url) hh.base_handlers) in
      if is_connect r.method
      then tunnelled r l
      else if not (equal r.host [])
      then forward fuel r l
      else own

  unfoldable pub with_headers : ℕ → Loop → Parse Request → Round
  with_headers fuel l broken = undefined
  with_headers fuel l refused = answer bad_request l
  with_headers fuel l (accepted r) = serve fuel r l

  unfoldable pub with_line : ℕ → Loop → Option (Request × ℕ) → Round
  with_line fuel l none = answer bad_request l
  with_line fuel l (some (r, n)) =
      let (r1, t) = retarget hh r l.target in
      let (parse, ss) = request_headers C r1 n l.client in
      with_headers fuel (record l { client = ss; target = t }) parse

  -- `first` is what the client's `make_request` gives.
  unfoldable pub http_round : Request → ℕ → Loop → Round
  http_round first fuel l =
      let ss = C.reset l.client in
      let (line, ss1) = parser_reuqest_line C first ss in
      if C.ok ss then with_line fuel (record l { client = ss1 }) line else stopped ss

  -- The rounds of a client, as many as the first number.
  unfoldable pub http_do : Request → ℕ → ℕ → Loop → Round
  http_do first zero fuel l = running
  http_do first (suc rounds) fuel l = elim (http_round first fuel l) [
    | running ↦ running
    | thrown ↦ thrown
    | undefined ↦ undefined
    | stopped ss ↦ stopped ss
    | tunnelled r l1 ↦ tunnelled r l1
    | next l1 ↦ http_do first rounds fuel l1
  ]
