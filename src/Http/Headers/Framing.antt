-- ===== src/Http/Headers/Framing.antt =====
-- The end of the body, as the headers of src/http/httpclient.cpp give it.
use hcpp.Common.{
  ℕ, zero, suc, ◌+◌, ◌-◌, ◌*◌, ◌≤◌, ◌<◌, true, false, List, [], ◌∷◌, ◌++◌, none, some, ◌≡◌, refl,
  sym, ap, subst, ◌∙◌, arith, Bytes, length, codes,
}
use hcpp.Http.Headers.{
  Headers, header, to_lower, colon, crlf, digit, number, search_number, msg_body_size, sized,
  body_of, parsed, parser_header,
}
use hcpp.Http.Headers.Lines.{
  Field, AreFields, name_of, line_of, text_of, last_line, parser_header-lines,
}

abbrev pub AreDigits : Bytes → Type 0
AreDigits [] = Unit {0}
AreDigits (c ∷ cs) = (b'0' ≤ c) × (c ≤ b'9') × AreDigits cs

-- The number that digits behind the number `n` make.
abbrev pub decimal : ℕ → Bytes → ℕ
decimal n [] = n
decimal n (c ∷ cs) = decimal (n * 10 + (c - b'0')) cs

number-decimal :
    (k n : ℕ) (ds : Bytes) → AreDigits ds → length ds ≤ k → number k n (ds ++ crlf) ≡ decimal n ds
unfolding number digit
number-decimal zero n [] a h = refl
number-decimal zero n (c ∷ cs) a h = absurd (omega arith)
number-decimal (suc k) n [] a h = ground arith
number-decimal (suc k) n (c ∷ cs) a h =
    ground (arith, number-decimal k (n * 10 + (c - b'0')) cs a.2)

-- No byte of the text is a digit.
abbrev HasNoDigit : Bytes → Type 0
HasNoDigit [] = Unit {0}
HasNoDigit (c ∷ cs) = (digit c ≡ false) × HasNoDigit cs

HasNoDigit-to_lower : (s : Bytes) → HasNoDigit (to_lower s) → HasNoDigit s
unfolding to_lower digit
HasNoDigit-to_lower [] h = tt
HasNoDigit-to_lower (c ∷ cs) h = (ground (arith, h.0), HasNoDigit-to_lower cs h.1)

search_number-skip : (s t : Bytes) → HasNoDigit s → search_number (s ++ t) ≡ search_number t
unfolding search_number digit
search_number-skip [] t h = refl
search_number-skip (c ∷ cs) t h = ground (arith, search_number-skip cs t h.1)

search_number-digits :
    (c : ℕ) (cs : Bytes)
    → b'0' < c
    → AreDigits (c ∷ cs)
    → length cs ≤ 10
    → search_number ((c ∷ cs) ++ crlf) ≡ some (decimal 0 (c ∷ cs))
unfolding search_number digit
search_number-digits c cs p a h = ground (arith, number-decimal 10 (c - b'0') cs a.2 h)

body_of-sized :
    (m : Headers) (name cs : Bytes) (c : ℕ)
    → to_lower name ≡ codes "content-length"
    → b'0' < c
    → AreDigits (c ∷ cs)
    → length cs ≤ 10
    → header (codes "content-length") m ≡ some (name ++ (colon ++ ((c ∷ cs) ++ crlf)))
    → header (codes "transfer-encoding") m ≡ none
    → body_of m ≡ sized (decimal 0 (c ∷ cs))
unfolding body_of msg_body_size
body_of-sized m name cs c e p a h cl te =
    let plain : HasNoDigit name =
      HasNoDigit-to_lower name (subst HasNoDigit (sym e) (unfold digit in ground arith)) in
    let digits = (c ∷ cs) ++ crlf in
    let size : search_number (name ++ (colon ++ digits)) ≡ some (decimal 0 (c ∷ cs)) =
      search_number-skip name (colon ++ digits) plain
      ∙ search_number-skip colon digits (unfold digit in ground arith)
      ∙ search_number-digits c cs p a h in
    rw (body_of, te, msg_body_size, cl, size) refl

-- If the last field named content-length, in any case, of well-formed fields has 1 to 11 digits as
-- its value, the first not 0, and no field is named transfer-encoding, then the parser accepts
-- their lines, and by its map the message has a body of the size that the digits make.
pub body_of-lines :
    (fs : List Field) (f : Field) (c : ℕ) (cs : Bytes)
    → AreFields fs
    → last_line (codes "content-length") fs none ≡ some (line_of f)
    → last_line (codes "transfer-encoding") fs none ≡ none
    → to_lower (name_of f) ≡ codes "content-length"
    → f.value ≡ c ∷ cs
    → b'0' < c
    → AreDigits (c ∷ cs)
    → length cs ≤ 10
    → (m : Headers) × (parser_header (text_of fs) [] ≡ parsed true m)
      × (body_of m ≡ sized (decimal 0 (c ∷ cs)))
body_of-lines fs f c cs a cl te name value p d h =
    let l = parser_header-lines (codes "content-length") fs a in
    let t = parser_header-lines (codes "transfer-encoding") fs a in
    let both : parsed true t.0 ≡ parsed true l.0 = sym t.1 ∙ l.1 in
    let same : t.0 ≡ l.0 = cc in
    let line : line_of f ≡ name_of f ++ (colon ++ ((c ∷ cs) ++ crlf)) =
      ap (λ v. name_of f ++ (colon ++ (v ++ crlf))) value in
    (
      l.0,
      l.1,
      body_of-sized l.0 (name_of f) cs c name p d h (l.2 ∙ cl ∙ ap some line)
          (ap (header (codes "transfer-encoding")) (sym same) ∙ t.2 ∙ te),
    )
