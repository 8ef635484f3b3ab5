-- ===== src/Http/Parsers.antt =====
-- The parsers of the first line and of the headers over a connection: `request_line`,
-- `request_headers` of src/http/httpclient.cpp, and `response_line`, `response_headers` of
-- src/http/http_svc_keeper.cpp.
pub mod Lost
pub mod Head
use hcpp.Common.{
  ℕ, zero, suc, ◌+◌, ◌-◌, ◌*◌, ◌%◌, ◌^◌, Bool, true, false, List, [], ◌∷◌, ◌++◌, Option, none, some,
  Bytes, length, take, codes, find, if◌then◌else◌,
}
use hcpp.Memory.{Memory}
use hcpp.Http.Headers.{
  Headers, Body, no_body, Outcome, undefined, unfinished, parsed, parser_header, body_of, crlf,
}
use hcpp.Http.Request.{Request, request_line}

-- `msg.substr(0, msg.find("\r\n") + 2)`; `npos + 2` is 1.
unfoldable pub first_line : Bytes → Bytes
first_line msg = elim (find msg crlf) [ none ↦ take 1 msg | some i ↦ take (i + 2) msg ]

-- `msg.size() - line.size() - 2`
unfoldable pub header_end : Bytes → Bytes → ℕ
header_end msg line = (length msg + 2 ^ 64 - (length line + 2)) % 2 ^ 64

-- `header_end_ + 2`
unfoldable pub behind_headers : ℕ → ℕ
behind_headers n = (n + 2) % 2 ^ 64

pub record Response : Type 0 where
  pub headers : Headers
  pub body : Body
  pub response_line : Bytes
  pub response_header_str : Bytes

abbrev pub new_response : Response
new_response = record { headers = []; body = no_body; response_line = []; response_header_str = [] }

-- What a parser leaves: a message, or a text that it does not take.
pub data Parse {ℓ} (A : Type ℓ) : Type ℓ where
  broken refused : Parse A
  accepted : A → Parse A

module _ (M : Memory) where
  open M use {Mem, async_load_until, get_some, remove_some}

  -- The request with the end of its headers; a line that is not taken stays in the buffer.
  unfoldable pub parser_reuqest_line : Request → Mem → Option (Request × ℕ) × Mem
  parser_reuqest_line h m =
      let (msg, m1) = async_load_until (codes "\r\n\r\n") m in
      let svl = first_line msg in
      elim (request_line h svl) [
        | none ↦ (none, m1)
        | some r ↦ (some (r, header_end msg svl), (remove_some (length svl) m1).1)
      ]

  unfoldable pub request_headers : Request → ℕ → Mem → Parse Request × Mem
  request_headers h n m = elim (parser_header (take n (get_some m)) h.headers) [
    | undefined ↦ (broken, m)
    | unfinished ↦ (broken, m)
    | parsed ok headers ↦
        if ok
        then (
          accepted (record h { headers = headers; body = body_of headers }),
          (remove_some (behind_headers n) m).1,
        )
        else (refused, m)
  ]

  unfoldable pub parser_response_line : Response → Mem → (Response × ℕ) × Mem
  parser_response_line r m =
      let (msg, m1) = async_load_until (codes "\r\n\r\n") m in
      let line = first_line msg in
      ((record r { response_line = line }, header_end msg line), (remove_some (length line) m1).1)

  unfoldable pub response_headers : Response → ℕ → Mem → Parse Response × Mem
  response_headers r n m =
      let sv = get_some m in
      let text = take (behind_headers n) sv in
      elim (parser_header (take n sv) r.headers) [
        | undefined ↦ (broken, m)
        | unfinished ↦ (broken, m)
        | parsed ok headers ↦
            if ok
            then (
              accepted (record r {
                headers = headers;
                body = body_of headers;
                response_header_str = text;
              }),
              (remove_some (behind_headers n) m).1,
            )
            else (refused, m)
      ]
