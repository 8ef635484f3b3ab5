-- ===== src/Kmp/Places.antt =====
-- What a search for two line ends has to find, and what it does with a byte that does not match.
use hcpp.Common.{
  ℕ, zero, suc, ◌+◌, ◌-◌, ◌*◌, ◌%◌, ◌^◌, ◌≤◌, ◌<◌, false, [], ◌∷◌, ◌++◌, Option, none, some, ◌≡◌,
  ◌≢◌, refl, sym, ap, ◌∙◌, arith, codes, find, starts_with, Bytes, length, take, ◌==◌,
}
use mathlib.Core.Option
use hcpp.Kmp.{
  byte_at, Kmp, kmp, compute_lps, minus_one, fall_back, Seen, unfinished, found, missing,
}

abbrev pub line_ends : Bytes
line_ends = codes "\r\n\r\n"

abbrev pub start : Kmp
start = record {
  lps = 0 ∷ 0 ∷ 1 ∷ 2 ∷ [];
  pattern = line_ends;
  j = 0;
  match_index = minus_one;
  match_len = 0;
}

pub kmp-line_ends : kmp line_ends ≡ some start
unfolding kmp compute_lps
kmp-line_ends = refl

abbrev pub state : ℕ → ℕ → ℕ → Kmp
state j mi ml = record start { j = j; match_index = mi; match_len = ml }

-- What the loop leaves at the index `i`, with `j` bytes of the pattern behind it, is what the search
-- in these and the text gives.
abbrev pub Agrees : ℕ → ℕ → ℕ → Option ℕ → Seen → Type 0
Agrees i j ml none (missing k) = k.match_len ≡ ml
Agrees i j ml (some p) (found q k) = (q ≡ (i + ml + p + 2 ^ 64 - j) % 2 ^ 64) × (k.match_len ≡ ml)
Agrees i j ml _ _ = ⊥

Agrees-shorter :
    (i j ml : ℕ) (o : Option ℕ) (s : Seen)
    → Agrees i j ml o s
    → Agrees i (suc j) ml (Option.map suc o) s
Agrees-shorter i j ml none (missing k) a = a
Agrees-shorter i j ml (some p) (found q k) a = (a.0 ∙ ap (λ n. n % 2 ^ 64) (omega arith), a.1)
Agrees-shorter i j ml none unfinished a = a
Agrees-shorter i j ml none (found q k) a = a
Agrees-shorter i j ml (some p) unfinished a = a
Agrees-shorter i j ml (some p) (missing k) a = a

Agrees-next :
    (i ml : ℕ) (o : Option ℕ) (s : Seen)
    → Agrees (i + 1) 0 ml o s
    → Agrees i 0 ml (Option.map suc o) s
Agrees-next i ml none (missing k) a = a
Agrees-next i ml (some p) (found q k) a = (a.0 ∙ ap (λ n. n % 2 ^ 64) (omega arith), a.1)
Agrees-next i ml none unfinished a = a
Agrees-next i ml none (found q k) a = a
Agrees-next i ml (some p) unfinished a = a
Agrees-next i ml (some p) (missing k) a = a

-- The index from which the loop goes on after a byte that does not match.
find-0 :
    (c : ℕ) (cs : Bytes) → c ≢ 13 → find (c ∷ cs) line_ends ≡ Option.map suc (find cs line_ends)
unfolding find starts_with
find-0 c cs h = ground arith

find-1 :
    (c : ℕ) (cs : Bytes)
    → c ≢ 10
    → find (13 ∷ c ∷ cs) line_ends ≡ Option.map suc (find (c ∷ cs) line_ends)
unfolding find starts_with
find-1 c cs h = ground arith

find-2 :
    (c : ℕ) (cs : Bytes)
    → c ≢ 13
    → find (13 ∷ 10 ∷ c ∷ cs) line_ends ≡ Option.map suc (Option.map suc (find (c ∷ cs) line_ends))
unfolding find starts_with
find-2 c cs h = ground arith

find-3 :
    (c : ℕ) (cs : Bytes)
    → c ≢ 10
    → find (13 ∷ 10 ∷ 13 ∷ c ∷ cs) line_ends
      ≡ Option.map suc (Option.map suc (find (13 ∷ c ∷ cs) line_ends))
unfolding find starts_with
find-3 c cs h = ground arith

-- What the rounds that follow give, for texts on which less than `bound` is left to do.
abbrev pub Good : (ℕ → Bytes → Kmp → Seen) → ℕ → ℕ → Type 0
Good again bound ml =
    (i j mi : ℕ) (text : Bytes)
    → j ≤ 3
    → 2 * length text + j < bound
    → Agrees i j ml (find (take j line_ends ++ text) line_ends) (again i text (state j mi ml))

pub other_byte :
    (again : ℕ → Bytes → Kmp → Seen) (i j mi ml c : ℕ) (cs : Bytes)
    → Good again (2 * length (c ∷ cs) + j) ml
    → j ≤ 3
    → byte_at line_ends j ≢ c
    → Agrees i j ml
        (find (take j line_ends ++ (c ∷ cs)) line_ends)
        (fall_back again i (c ∷ cs) (state j mi ml))
unfolding fall_back
other_byte again i zero mi ml c cs good b h =
    let e : (13 == c) ≡ false = ground (arith, h) in
    rw (find-0 c cs (λ s. h (sym s)), e)
      (Agrees-next i ml (find cs line_ends) (again (i + 1) cs (state 0 mi ml))
        (good (i + 1) 0 mi cs (omega arith) (omega arith)))
other_byte again i (suc zero) mi ml c cs good b h =
    let e : (10 == c) ≡ false = ground (arith, h) in
    rw (find-1 c cs (λ s. h (sym s)), e)
      (Agrees-shorter i 0 ml (find (c ∷ cs) line_ends) (again i (c ∷ cs) (state 0 mi ml))
        (good i 0 mi (c ∷ cs) (omega arith) (omega arith)))
other_byte again i (suc (suc zero)) mi ml c cs good b h =
    let e : (13 == c) ≡ false = ground (arith, h) in
    let o = find (c ∷ cs) line_ends in
    let s = again i (c ∷ cs) (state 0 mi ml) in
    rw (find-2 c cs (λ s. h (sym s)), e)
      (Agrees-shorter i 1 ml (Option.map suc o) s
        (Agrees-shorter i 0 ml o s (good i 0 mi (c ∷ cs) (omega arith) (omega arith))))
other_byte again i (suc (suc (suc zero))) mi ml c cs good b h =
    let e : (10 == c) ≡ false = ground (arith, h) in
    let o = find (13 ∷ c ∷ cs) line_ends in
    let s = again i (c ∷ cs) (state 1 mi ml) in
    rw (find-3 c cs (λ s. h (sym s)), e)
      (Agrees-shorter i 2 ml (Option.map suc o) s
        (Agrees-shorter i 1 ml o s (good i 1 mi (c ∷ cs) (omega arith) (omega arith))))
other_byte again i (suc (suc (suc (suc j)))) mi ml c cs good b h = absurd (omega (arith, b))
