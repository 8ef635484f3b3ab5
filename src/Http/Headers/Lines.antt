-- ===== src/Http/Headers/Lines.antt =====
-- `parser_header` of src/http/httpmsg.cpp on the lines of a header, and its map.
use hcpp.Common.{
  Lacks, find-pair, drop-pair, ℕ, zero, suc, ◌+◌, ◌≤◌, ◌<◌, true, List, [], ◌∷◌, ◌++◌, Option, none,
  some, ◌≡◌, ◌≢◌, refl, sym, ap, ap₂, ◌∙◌, arith, Bytes, length, take, drop, equal, equal_iff, find,
  starts_with, length-append, append_assoc, take-append_le, take-all, if◌then◌else◌, Bool-cases,
  inl, inr,
}
use hcpp.Http.Headers.{
  Headers, rest, fold_lines, parsed, header_lines, parser_header, crlf, colon, assign, to_lower,
  header,
}

pub record Field : Type 0 where
  pub first : ℕ
  pub others : Bytes
  pub value : Bytes

abbrev pub name_of : Field → Bytes
name_of f = f.first ∷ f.others

-- A name that does not begin with a space and has no colon, and a value without carriage return.
abbrev pub AreFields : List Field → Type 0
AreFields [] = Unit {0}
AreFields (f ∷ fs) = (f.first ≢ 32) × Lacks 58 (name_of f) × Lacks 13 f.value × AreFields fs

abbrev pub line_of : Field → Bytes
line_of f = name_of f ++ (colon ++ (f.value ++ crlf))

abbrev pub text_of : List Field → Bytes
text_of [] = []
text_of (f ∷ fs) = line_of f ++ text_of fs

-- The line of the last field whose name is `k` in lower case.
abbrev pub last_line : Bytes → List Field → Option Bytes → Option Bytes
last_line k [] o = o
last_line k (f ∷ fs) o =
    last_line k fs (if equal k (to_lower (name_of f)) then some (line_of f) else o)

header-assign :
    (k j v : Bytes) (h : Headers)
    → header k (assign j v h) ≡ (if equal k j then some v else header k h)
unfolding header assign
header-assign k j v [] = refl
header-assign k j v (x ∷ xs) = elim (Bool-cases (equal j x.0)) [
  | inl there ↦
      let e : equal k x.0 ≡ equal k j = ap (equal k) (sym ((equal_iff j x.0).0 there)) in
      ground (arith, e, header-assign k j v xs)
  | inr away ↦ elim (Bool-cases (equal k j)) [
    | inl equals ↦
        let e : equal k x.0 ≡ equal j x.0 = ap (λ i. equal i x.0) ((equal_iff k j).0 equals) in
        ground (arith, e, header-assign k j v xs)
    | inr other ↦ ground (arith, header-assign k j v xs)
  ]
]

fold_lines-none :
    (f : ℕ) (fs : List Field) → 0 < f → AreFields fs → fold_lines f (text_of fs) ≡ rest (text_of fs)
unfolding fold_lines starts_with
fold_lines-none zero fs p a = absurd (omega arith)
fold_lines-none (suc f) [] p a = refl
fold_lines-none (suc f) (x ∷ fs) p a = ground arith

-- One round of the parser, by what its searches find.
header_lines-round :
    (f c n v : ℕ) (cs t : Bytes) (h : Headers)
    → find (c ∷ cs) colon ≡ some n
    → find (drop (n + 2) (c ∷ cs)) crlf ≡ some v
    → fold_lines (length cs + 1) (drop (v + 2) (drop (n + 2) (c ∷ cs))) ≡ rest t
    → header_lines (suc f) (c ∷ cs) h
      ≡ header_lines f t (assign (to_lower (take n (c ∷ cs))) (take (n + 2 + v + 2) (c ∷ cs)) h)
unfolding header_lines
header_lines-round f c n v cs t h named ended folded = rw (header_lines, named, ended, folded) refl

-- One round of the parser on a line.
header_lines-line :
    (f : ℕ) (x : Field) (fs : List Field) (h : Headers)
    → AreFields (x ∷ fs)
    → header_lines (suc f) (line_of x ++ text_of fs) h
      ≡ header_lines f (text_of fs) (assign (to_lower (name_of x)) (line_of x) h)
header_lines-line f x fs h a =
    let name = name_of x in
    let tail = text_of fs in
    let behind = x.value ++ (crlf ++ tail) in
    let whole : line_of x ++ tail ≡ name ++ (58 ∷ 32 ∷ behind) =
      append_assoc name (colon ++ (x.value ++ crlf)) tail
      ∙ ap (λ t. name ++ (58 ∷ 32 ∷ t)) (append_assoc x.value crlf tail) in
    let line = line_of x ++ tail in
    let size : length (line_of x) ≡ length name + 2 + length x.value + 2 =
      omega (arith, length-append name (colon ++ (x.value ++ crlf)), length-append x.value crlf) in
    let named : find line colon ≡ some (length name) =
      ap (λ t. find t colon) whole ∙ find-pair 58 32 name behind a.1 in
    let after : drop (length name + 2) line ≡ behind =
      ap (drop (length name + 2)) whole ∙ drop-pair 58 32 name behind in
    let ended : find behind crlf ≡ some (length x.value) = find-pair 13 10 x.value tail a.2 in
    let skipped : drop (length x.value + 2) behind ≡ tail = drop-pair 13 10 x.value tail in
    let key : take (length name) line ≡ name =
      ap (take (length name)) whole
      ∙ take-append_le (length name) name (58 ∷ 32 ∷ behind) (omega arith)
      ∙ take-all (length name) name (omega arith) in
    let kept : take (length name + 2 + length x.value + 2) line ≡ line_of x =
      take-append_le (length name + 2 + length x.value + 2) (line_of x) tail (omega (arith, size))
      ∙ take-all (length name + 2 + length x.value + 2) (line_of x) (omega (arith, size)) in
    let others = x.others ++ (colon ++ (x.value ++ crlf)) ++ tail in
    header_lines-round f x.first (length name) (length x.value) others tail h named
      (ap (λ t. find t crlf) after ∙ ended)
      (ap (fold_lines (length others + 1)) (ap (drop (length x.value + 2)) after ∙ skipped)
        ∙ fold_lines-none (length others + 1) fs (omega arith) a.3)
    ∙ ap₂ (λ i j. header_lines f tail (assign (to_lower i) j h)) key kept

header_lines-lines :
    (f : ℕ) (k : Bytes) (fs : List Field) (h : Headers)
    → AreFields fs
    → length fs < f
    → (m : Headers) × (header_lines f (text_of fs) h ≡ parsed true m)
      × (header k m ≡ last_line k fs (header k h))
header_lines-lines zero k fs h a l = absurd (omega arith)
header_lines-lines (suc f) k [] h a l = unfold header_lines in (h, refl, refl)
header_lines-lines (suc f) k (x ∷ fs) h a l =
    let h' = assign (to_lower (name_of x)) (line_of x) h in
    let r = header_lines-lines f k fs h' a.3 (omega arith) in
    (
      r.0,
      header_lines-line f x fs h a ∙ r.1,
      r.2 ∙ ap (last_line k fs) (header-assign k (to_lower (name_of x)) (line_of x) h),
    )

length-text_of : (fs : List Field) → length fs ≤ length (text_of fs)
length-text_of [] = omega arith
length-text_of (x ∷ fs) = omega (arith, length-append (line_of x) (text_of fs), length-text_of fs)

-- For every list of fields whose names are not empty, do not begin with a space and have no colon,
-- and whose values have no carriage return, the parser accepts the text of their lines, and its
-- map gives for every key the line of the last field whose name is that key in lower case, or
-- nothing if there is none.
pub parser_header-lines :
    (k : Bytes) (fs : List Field)
    → AreFields fs
    → (m : Headers) × (parser_header (text_of fs) [] ≡ parsed true m)
      × (header k m ≡ last_line k fs none)
unfolding parser_header header
parser_header-lines k fs a =
    header_lines-lines (length (text_of fs) + 1) k fs [] a (omega (arith, length-text_of fs))
