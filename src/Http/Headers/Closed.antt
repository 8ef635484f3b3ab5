-- ===== src/Http/Headers/Closed.antt =====
-- `parser_header` of src/http/httpmsg.cpp on the texts that its callers hand over: each line of them
-- has its end.
use hcpp.Common.{
  ◌++◌, ◌⊎◌, subst, ℕ, zero, suc, ◌+◌, ◌≤◌, ◌<◌, Bool, true, [], ◌∷◌, none, some, ◌≡◌, ◌≢◌, refl,
  sym, ap, ◌∙◌, arith, Bytes, length, take, drop, find, starts_with, length-drop, Bool-cases,
  Option-cases, inl, inr,
}
use hcpp.Http.Headers.{
  Headers, Folded, rest, fold_lines, Outcome, parsed, header_lines, parser_header, crlf, colon,
  assign, to_lower,
}

-- A text that is empty, or ends in a line end.
abbrev IsClosed : Bytes → Type 0
IsClosed [] = Unit {0}
IsClosed (c ∷ []) = ⊥
IsClosed (c ∷ d ∷ []) = (c ≡ b'\r') × (d ≡ b'\n')
IsClosed (c ∷ d ∷ e ∷ s) = IsClosed (d ∷ e ∷ s)

IsClosed-behind : (c : ℕ) (s : Bytes) → c ≢ b'\r' → IsClosed (c ∷ s) → IsClosed s × (0 < length s)
IsClosed-behind c [] n h = absurd h
IsClosed-behind c (d ∷ []) n h = absurd (n h.0)
IsClosed-behind c (d ∷ e ∷ s) n h = (h, omega arith)

find-IsClosed : (c : ℕ) (s : Bytes) → IsClosed (c ∷ s) → find (c ∷ s) crlf ≢ none
unfolding find starts_with
find-IsClosed c [] h = absurd h
find-IsClosed c (d ∷ []) h = ground (arith, h.0, h.1)
find-IsClosed c (d ∷ e ∷ s) h = ground (arith, find-IsClosed d (e ∷ s) h)

-- A pattern stands in front, or is found behind the first byte.
find-step :
    (c : ℕ) (s p : Bytes) (v : ℕ)
    → find (c ∷ s) p ≡ some v
    → ((starts_with (c ∷ s) p ≡ true) × (v ≡ 0)) ⊎ ((w : ℕ) × (find s p ≡ some w) × (v ≡ suc w))
unfolding find
find-step c s p v e = elim (Bool-cases (starts_with (c ∷ s) p)) [
  | inl here ↦ let r : some 0 ≡ some v = rw here at e in inl (here, ground (arith, r))
  | inr there ↦ elim (Option-cases (find s p)) [
    | inl absent ↦ let r : none ≡ some v = rw (there, absent) at e in absurd (ground (arith, r))
    | inr (w, found) ↦
        let r : some (suc w) ≡ some v = rw (there, found) at e in inr (w, found, ground (arith, r))
  ]
]

two_bytes :
    (a b c d : ℕ) (s : Bytes) → starts_with (c ∷ d ∷ s) (a ∷ b ∷ []) ≡ true → (c ≡ a) × (d ≡ b)
unfolding starts_with
two_bytes a b c d s e = ground (arith, e)

one_byte : (a b c : ℕ) → starts_with (c ∷ []) (a ∷ b ∷ []) ≡ true → ⊥
unfolding starts_with
one_byte a b c e = ground (arith, e)

no_bytes : (a b v : ℕ) → find [] (a ∷ b ∷ []) ≡ some v → ⊥
unfolding find starts_with
no_bytes a b v e = ground (arith, e)

-- Behind the first place of two bytes, the second of which is no carriage return, and the first
-- either is no such byte, or the text goes on.
IsClosed-drop :
    (a b : ℕ) (s : Bytes) (v : ℕ)
    → b ≢ b'\r'
    → IsClosed s
    → find s (a ∷ b ∷ []) ≡ some v
    → IsClosed (drop (v + 2) s)
IsClosed-drop a b [] v n h e = absurd (no_bytes a b v e)
IsClosed-drop a b (c ∷ []) v n h e = absurd h
IsClosed-drop a b (c ∷ d ∷ []) v n h e = elim (find-step c (d ∷ []) (a ∷ b ∷ []) v e) [
  | inl (here, z) ↦ rw z tt
  | inr (w, found, z) ↦ elim (find-step d [] (a ∷ b ∷ []) w found) [
    | inl (here, y) ↦ absurd (one_byte a b d here)
    | inr (u, none_left, y) ↦ absurd (no_bytes a b u none_left)
  ]
]
IsClosed-drop a b (c ∷ d ∷ x ∷ s) v n h e = elim (find-step c (d ∷ x ∷ s) (a ∷ b ∷ []) v e) [
  | inl (here, z) ↦
      rw z (IsClosed-behind d (x ∷ s) (λ q. n (sym (two_bytes a b c d (x ∷ s) here).1 ∙ q)) h).0
  | inr (w, found, z) ↦
      subst (λ k. IsClosed (drop k (c ∷ d ∷ x ∷ s))) {x = suc (w + 2)} (omega (arith, z))
        (IsClosed-drop a b (d ∷ x ∷ s) w n h found)
]

-- The rest is such a text, and no longer than the one before.
IsCut : ℕ → Folded → Type 0
IsCut n Folded.undefined = ⊥
IsCut n Folded.unfinished = ⊥
IsCut n (rest s) = IsClosed s × (length s ≤ n)

IsCut-weaken : (m n : ℕ) (r : Folded) → m ≤ n → IsCut m r → IsCut n r
unfolding IsCut
IsCut-weaken m n Folded.undefined h c = absurd c
IsCut-weaken m n Folded.unfinished h c = absurd c
IsCut-weaken m n (rest s) h c = (c.0, omega arith)

folded-behind :
    (c : ℕ) (cs : Bytes)
    → starts_with (c ∷ cs) (b' ' ∷ []) ≡ true
    → IsClosed (c ∷ cs)
    → (d : ℕ) × (ds : Bytes) × (cs ≡ d ∷ ds) × IsClosed (d ∷ ds)
unfolding starts_with
folded-behind c [] e h = absurd h
folded-behind c (d ∷ []) e h = absurd (ground (arith, e, h.0))
folded-behind c (d ∷ x ∷ s) e h = (d, x ∷ s, refl, h)

fold_lines-IsCut :
    (f : ℕ) (s : Bytes) → IsClosed s → length s < f → IsCut (length s) (fold_lines f s)
unfolding fold_lines IsCut starts_with
fold_lines-IsCut zero s k h = absurd (omega arith)
fold_lines-IsCut (suc f) [] k h = (tt, omega arith)
fold_lines-IsCut (suc f) (c ∷ cs) k h = elim (Bool-cases (starts_with (c ∷ cs) (b' ' ∷ []))) [
  | inr plain ↦ rw (plain, fold_lines, IsCut) (k, omega arith)
  | inl folded ↦
      let (d, ds, same, closed) = folded-behind c cs folded k in
      let inner : IsClosed cs = subst IsClosed (sym same) closed in
      elim (Option-cases (find cs crlf)) [
        | inl absent ↦
            absurd (find-IsClosed d ds closed (ap (λ t. find t crlf) (sym same) ∙ absent))
        | inr (v, found) ↦
            let size = length-drop (v + 2) cs in
            rw (folded, fold_lines, found)
              (IsCut-weaken (length (drop (v + 2) cs)) (suc (length cs)) _ (omega arith) (
                fold_lines-IsCut f (drop (v + 2) cs)
                  (IsClosed-drop b'\r' b'\n' cs v (λ q. ground (arith, q)) inner found)
                  (omega arith)))
      ]
]

-- The parser's value, and its map.
abbrev IsParsed : Outcome → Type 0
IsParsed Outcome.undefined = ⊥
IsParsed Outcome.unfinished = ⊥
IsParsed (parsed ok m) = Unit {0}

header_lines-IsParsed :
    (f : ℕ) (s : Bytes) (h : Headers) → IsClosed s → length s < f → IsParsed (header_lines f s h)
unfolding header_lines
header_lines-IsParsed zero s h k l = absurd (omega arith)
header_lines-IsParsed (suc f) [] h k l = tt
header_lines-IsParsed (suc f) (c ∷ cs) h k l = elim (Option-cases (find (c ∷ cs) colon)) [
  | inl absent ↦ rw (header_lines, absent) tt
  | inr (n, named) ↦ elim (Option-cases (find (drop (n + 2) (c ∷ cs)) crlf)) [
    | inl open_line ↦ rw (header_lines, named, open_line) tt
    | inr (v, ended) ↦
        let behind = drop (v + 2) (drop (n + 2) (c ∷ cs)) in
        let size : length behind ≤ length cs =
          omega
            (arith, length-drop (v + 2) (drop (n + 2) (c ∷ cs)), length-drop (n + 2) (c ∷ cs)) in
        let value = IsClosed-drop b':' b' ' (c ∷ cs) n (λ q. ground (arith, q)) k named in
        let closed =
          IsClosed-drop b'\r' b'\n' (drop (n + 2) (c ∷ cs)) v (λ q. ground (arith, q)) value
            ended in
        rw (header_lines, named, ended)
          (of_folded (λ t m o q. header_lines-IsParsed f t m o q)
            (assign (to_lower (take n (c ∷ cs))) (take (n + 2 + v + 2) (c ∷ cs)) h)
            (fold_lines (length cs + 1) behind)
            (IsCut-weaken (length behind) (length cs) _ size
              (fold_lines-IsCut (length cs + 1) behind closed (omega arith))))
  ]
]
  where
    of_folded :
        ((t : Bytes) (m : Headers) → IsClosed t → length t < f → IsParsed (header_lines f t m))
        → (m : Headers) (r : Folded) → IsCut (length cs) r
        → IsParsed (elim r as (λ x. Outcome) [
          | Folded.undefined ↦ Outcome.undefined
          | Folded.unfinished ↦ Outcome.unfinished
          | rest svl ↦ header_lines f svl m
        ])
    of_folded again m Folded.undefined c = absurd (unfold IsCut in c)
    of_folded again m Folded.unfinished c = absurd (unfold IsCut in c)
    of_folded again m (rest svl) c =
        again svl m (unfold IsCut in c.0) (unfold IsCut in omega (arith, c.1))

IsClosed-append : (s : Bytes) → IsClosed (s ++ crlf)
IsClosed-append [] = (refl, refl)
IsClosed-append (c ∷ []) = (refl, refl)
IsClosed-append (c ∷ d ∷ []) = (refl, refl)
IsClosed-append (c ∷ d ∷ x ∷ s) = IsClosed-append (d ∷ x ∷ s)

parsed_by : (r : Outcome) → IsParsed r → (ok : Bool) × (m : Headers) × (r ≡ parsed ok m)
parsed_by Outcome.undefined p = absurd p
parsed_by Outcome.unfinished p = absurd p
parsed_by (parsed ok m) p = (ok, m, refl)

-- On every text that ends in a line end, and with every map to begin with, the header parser
-- returns a value and a map: its loops end, and no byte is removed of an empty text.
pub parser_header-parses :
    (s : Bytes) (h : Headers)
    → (ok : Bool) × (m : Headers) × (parser_header (s ++ crlf) h ≡ parsed ok m)
unfolding parser_header
parser_header-parses s h =
    parsed_by (parser_header (s ++ crlf) h) (
      header_lines-IsParsed (length (s ++ crlf) + 1) (s ++ crlf) h (IsClosed-append s)
        (omega arith))
