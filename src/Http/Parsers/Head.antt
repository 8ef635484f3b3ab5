-- ===== src/Http/Parsers/Head.antt =====
-- The first line and the headers of a request, as one reading of a stream.
use hcpp.Common.{
  ℕ, ◌+◌, ◌^◌, ◌<◌, ◌++◌, some, true, ◌≡◌, refl, sym, ap, ◌∙◌, arith, Bytes, length, take, drop,
  codes, find, append_assoc, length-append, Lacks, find-pair, take-front, drop-front,
}
use hcpp.Memory.{Memory, IsStream}
use hcpp.Http.Headers.{Headers, crlf, parser_header, parsed, body_of}
use hcpp.Http.Request.{Request, request_line}
use hcpp.Http.Parsers.{
  parser_reuqest_line, request_headers, first_line, header_end, behind_headers, accepted,
}

first_line-head :
    (l behind : Bytes) → Lacks b'\r' l → first_line ((l ++ crlf) ++ behind) ≡ l ++ crlf
unfolding first_line
first_line-head l behind a =
    let found : find ((l ++ crlf) ++ behind) crlf ≡ some (length l) =
      ap (λ t. find t crlf) (append_assoc l crlf behind) ∙ find-pair b'\r' b'\n' l behind a in
    rw (first_line, found)
      (ap (λ n. take n ((l ++ crlf) ++ behind)) (sym (length-append l crlf))
        ∙ take-front (l ++ crlf) behind)

header_end-head :
    (line headers : Bytes)
    → length headers < 2 ^ 64
    → header_end (line ++ (headers ++ crlf)) line ≡ length headers
unfolding header_end
header_end-head line headers h =
    let a = length-append line (headers ++ crlf) in
    let b = length-append headers crlf in omega (arith, a, b, h)

small_end : (n : ℕ) → n + 2 < 2 ^ 64 → behind_headers n ≡ n + 2
unfolding behind_headers
small_end n h = omega (arith, h)

module _ (M : Memory) (S : IsStream M) where
  open M use {Mem, async_load_until, get_some, remove_some}
  open S use {IsValid, pending, coming, remove}

  line_round :
      (h r : Request) (m m1 : Mem) (msg line : Bytes) (n : ℕ)
      → async_load_until (codes "\r\n\r\n") m ≡ (msg, m1)
      → first_line msg ≡ line
      → request_line h line ≡ some r
      → header_end msg line ≡ n
      → parser_reuqest_line M h m ≡ (some (r, n), (remove_some (length line) m1).1)
  unfolding parser_reuqest_line
  line_round h r m m1 msg line n a b c d =
      let text = ap (λ p. p.0) a in
      rw (parser_reuqest_line, text, b, c, text, b, d, ap (λ p. p.1) a) refl

  headers_round :
      (r : Request) (n k : ℕ) (m : Mem) (text : Bytes) (hs : Headers)
      → take n (get_some m) ≡ text
      → parser_header text r.headers ≡ parsed true hs
      → behind_headers n ≡ k
      → request_headers M r n m
        ≡ (accepted (record r { headers = hs; body = body_of hs }), (remove_some k m).1)
  unfolding request_headers
  headers_round r n k m text hs a b c = rw (request_headers, a, b, c) refl

  -- A read up to two line ends has given a line and the text of the headers, which the memory shows
  -- when the line is removed.
  pub record IsHead (line headers rest : Bytes) (m m1 : Mem) : Type 0 where
    pub given : async_load_until (codes "\r\n\r\n") m ≡ ((line ++ crlf) ++ (headers ++ crlf), m1)
    pub plain : Lacks b'\r' line
    pub valid : IsValid m1
    pub waiting : pending m1 ≡ ((line ++ crlf) ++ (headers ++ crlf)) ++ rest
    pub shown :
        (behind : Bytes) × (get_some (remove_some (length (line ++ crlf)) m1).1 ≡ headers ++ behind)
    pub short : length headers + 2 < 2 ^ 64

  -- What both parsers leave behind them.
  pub record Parsed (line : Bytes) (h r : Request) (hs : Headers) (n : ℕ) (rest : Bytes)
      (m m1 : Mem) : Type 0 where
    pub middle : Mem
    pub left : Mem
    pub line_read : parser_reuqest_line M h m ≡ (some (r, n), middle)
    pub headers_read :
        request_headers M r n middle
        ≡ (accepted (record r { headers = hs; body = body_of hs }), left)
    pub waiting : pending left ≡ rest
    pub same : coming left ≡ coming m1
    pub valid : IsValid left

  -- If a read up to two line ends gives a line without a carriage return and the text of the
  -- headers, of a valid stream that shows them when the line is removed, and the line and the
  -- headers are accepted, then both parsers together give the request with these headers and the
  -- body that they say, remove exactly what was read up to the two line ends, and read nothing
  -- else; what is buffered behind it stays.
  pub request-head :
      (line headers rest : Bytes) (h r : Request) (hs : Headers) (m m1 : Mem)
      → IsHead line headers rest m m1
      → request_line h (line ++ crlf) ≡ some r
      → parser_header headers r.headers ≡ parsed true hs
      → Parsed line h r hs (length headers) rest m m1
  request-head line headers rest h r hs m m1 k e p =
      let full = line ++ crlf in
      let msg = full ++ (headers ++ crlf) in
      let n = length full in
      let first = first_line-head line (headers ++ crlf) k.plain in
      let size = length-append full (headers ++ crlf) in
      let size2 = length-append headers crlf in
      let all = length-append msg rest in
      let r1 = remove n m1 k.valid (omega (arith, ap length k.waiting, all, size)) in
      let m2 = (remove_some n m1).1 in
      let after : pending m2 ≡ (headers ++ crlf) ++ rest =
        r1.1
        ∙ ap (drop n) (k.waiting ∙ append_assoc full (headers ++ crlf) rest)
        ∙ drop-front full ((headers ++ crlf) ++ rest) in
      let r2 =
        remove (length headers + 2) m2 r1.0
          (omega (arith, ap length after, length-append (headers ++ crlf) rest, size2)) in
      let shown = ap (take (length headers)) k.shown.1 ∙ take-front headers k.shown.0 in
      let last : drop (length headers + 2) ((headers ++ crlf) ++ rest) ≡ rest =
        ap (λ i. drop i ((headers ++ crlf) ++ rest)) (sym size2)
        ∙ drop-front (headers ++ crlf) rest in
      record {
        middle = m2;
        left = (remove_some (length headers + 2) m2).1;
        line_read =
            line_round h r m m1 msg full (length headers) k.given first e
              (header_end-head full headers (omega (arith, k.short)));
        headers_read =
            headers_round r (length headers) (length headers + 2) m2 headers hs shown p
              (small_end (length headers) k.short);
        waiting = r2.1 ∙ ap (drop (length headers + 2)) after ∙ last;
        same = r2.2 ∙ r1.2;
        valid = r2.0;
      }
