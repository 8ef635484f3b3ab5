-- ===== src/Http/Parsers/Lost.antt =====
-- What the parser of a response makes of a connection on which nothing arrives.
use hcpp.Common.{ℕ, ◌-◌, ◌^◌, [], ◌≡◌, refl, ap, ◌∙◌, codes, find, starts_with, take, true}
use hcpp.Memory.{Memory}
use hcpp.Http.Headers.{parser_header, header_lines, body_of, msg_body_size, header, parsed}
use hcpp.Http.Parsers.{
  parser_response_line, response_headers, first_line, header_end, behind_headers, new_response,
  accepted,
}

-- `npos + 2 - 2` on the empty text, the end of the headers.
abbrev lost_end : ℕ
lost_end = 2 ^ 64 - 2

empty_line : first_line [] ≡ []
unfolding first_line find starts_with
empty_line = refl

empty_end : header_end [] [] ≡ lost_end
unfolding header_end
empty_end = refl

nothing_behind : behind_headers lost_end ≡ 0
unfolding behind_headers
nothing_behind = refl

no_headers : parser_header [] [] ≡ parsed true []
unfolding parser_header header_lines
no_headers = refl

module _ (M : Memory) where
  open M use {Mem, async_load_until, get_some, remove_some}

  line-nothing :
      (m m1 : Mem)
      → async_load_until (codes "\r\n\r\n") m ≡ ([], m1)
      → parser_response_line M new_response m ≡ ((new_response, lost_end), (remove_some 0 m1).1)
  unfolding parser_response_line
  line-nothing m m1 e =
      rw (parser_response_line, ap (λ p. p.0) e, ap (λ p. p.1) e, empty_line, empty_end) refl

  headers-nothing :
      (m : Mem)
      → get_some m ≡ []
      → response_headers M new_response lost_end m ≡ (accepted new_response, (remove_some 0 m).1)
  unfolding response_headers body_of msg_body_size header
  headers-nothing m f =
      let text : parser_header (take lost_end (get_some m)) [] ≡ parsed true [] =
        ap (λ t. parser_header (take lost_end t) []) f ∙ no_headers in
      rw (response_headers, text, f, nothing_behind) refl

  -- When the read of a response gives nothing and nothing is buffered, its line is taken as empty,
  -- the end of its headers wraps to 2 ^ 64 - 2, and its headers are accepted: the proxy has an
  -- empty response, not an error.
  pub response-nothing :
      (m m1 : Mem)
      → async_load_until (codes "\r\n\r\n") m ≡ ([], m1)
      → get_some (remove_some 0 m1).1 ≡ []
      → (parser_response_line M new_response m ≡ ((new_response, lost_end), (remove_some 0 m1).1))
        × (response_headers M new_response lost_end (remove_some 0 m1).1
            ≡ (accepted new_response, (remove_some 0 (remove_some 0 m1).1).1))
  response-nothing m m1 e f = (line-nothing m m1 e, headers-nothing (remove_some 0 m1).1 f)
