-- ===== src/Kmp/Search.antt =====
-- The search for two line ends, the only pattern that the program searches.
use hcpp.Common.{
  ℕ, zero, suc, ◌+◌, ◌-◌, ◌*◌, ◌%◌, ◌^◌, ◌≤◌, ◌<◌, false, [], ◌∷◌, ◌++◌, Option, none, some, ◌≡◌,
  refl, ap, subst, ◌∙◌, ==_iff, arith, find, starts_with, find-within, Bytes, length, take, ◌==◌,
  if◌then◌else◌, Bool-cases, inl, inr,
}
use hcpp.Kmp.{
  byte_at, Kmp, search, minus_one, rounds, fall_back, Seen, unfinished, found, missing, to_int,
}
use hcpp.Kmp.Places.{Agrees, Good, line_ends, other_byte, start, state}

Good-le : (again : ℕ → Bytes → Kmp → Seen) (m n ml : ℕ) → m ≤ n → Good again n ml → Good again m ml
Good-le again m n ml h good i j mi text b l = good i j mi text b (omega (arith, h, l))

advance :
    (again : ℕ → Bytes → Kmp → Seen) (i j mi ml : ℕ) (text : Bytes)
    → Good again (2 * length text + j + 1) ml
    → j ≤ 3
    → Agrees i j ml
        (find (take j line_ends ++ text) line_ends)
        (fall_back again i text (state j mi ml))
unfolding fall_back
advance again i j mi ml [] good b =
    let e : (j == 4) ≡ false = ground (arith, b) in rw e (good i j mi [] b (omega arith))
advance again i j mi ml (c ∷ cs) good b =
    let e : (j == 4) ≡ false = ground (arith, b) in
    elim (Bool-cases (byte_at line_ends j == c)) [
      | inl m ↦ rw (e, m) (good i j mi (c ∷ cs) b (omega arith))
      | inr m ↦
          other_byte again i j mi ml c cs (Good-le again _ _ ml (omega arith) good) b
            (λ s. absurd (ground (arith, s, m)))
    ]

last_byte :
    (again : ℕ → Bytes → Kmp → Seen) (i mi ml : ℕ) (text : Bytes)
    → Agrees i 4 ml (find (line_ends ++ text) line_ends) (fall_back again i text (state 4 mi ml))
unfolding fall_back find starts_with
last_byte again i mi ml text = (ap (λ n. n % 2 ^ 64) (omega arith), refl)

Agrees-moved :
    (i j ml : ℕ) (o : Option ℕ) (s : Seen) → Agrees (i + 1) (suc j) ml o s → Agrees i j ml o s
Agrees-moved i j ml none (missing k) a = a
Agrees-moved i j ml (some p) (found q k) a = (a.0 ∙ ap (λ n. n % 2 ^ 64) (omega arith), a.1)
Agrees-moved i j ml none unfinished a = a
Agrees-moved i j ml none (found q k) a = a
Agrees-moved i j ml (some p) unfinished a = a
Agrees-moved i j ml (some p) (missing k) a = a

next_byte :
    (again : ℕ → Bytes → Kmp → Seen) (i j mi ml : ℕ) (cs : Bytes)
    → Good again (2 * length cs + j + 2) ml
    → j ≤ 3
    → Agrees i j ml
        (find (take j line_ends ++ (byte_at line_ends j ∷ cs)) line_ends)
        (fall_back again (i + 1) cs (state (j + 1) mi ml))
next_byte again i zero mi ml cs good b =
    Agrees-moved i 0 ml _ _
      (advance again (i + 1) 1 mi ml cs (Good-le again _ _ ml (omega arith) good) (omega arith))
next_byte again i (suc zero) mi ml cs good b =
    Agrees-moved i 1 ml _ _
      (advance again (i + 1) 2 mi ml cs (Good-le again _ _ ml (omega arith) good) (omega arith))
next_byte again i (suc (suc zero)) mi ml cs good b =
    Agrees-moved i 2 ml _ _
      (advance again (i + 1) 3 mi ml cs (Good-le again _ _ ml (omega arith) good) (omega arith))
next_byte again i (suc (suc (suc zero))) mi ml cs good b =
    Agrees-moved i 3 ml _ _ (last_byte again (i + 1) mi ml cs)
next_byte again i (suc (suc (suc (suc j)))) mi ml cs good b = absurd (omega (arith, b))

no_text : (j : ℕ) → j ≤ 3 → find (take j line_ends ++ []) line_ends ≡ none
unfolding find starts_with
no_text zero b = refl
no_text (suc zero) b = refl
no_text (suc (suc zero)) b = refl
no_text (suc (suc (suc zero))) b = refl
no_text (suc (suc (suc (suc j)))) b = absurd (omega (arith, b))

rounds-Good : (fuel ml : ℕ) → Good (rounds fuel) fuel ml
unfolding rounds
rounds-Good zero ml i j mi text b l = absurd (omega (arith, l))
rounds-Good (suc fuel) ml i j mi [] b l = rw (no_text j b) refl
rounds-Good (suc fuel) ml i j mi (c ∷ cs) b l = elim (Bool-cases (byte_at line_ends j == c)) [
  | inl m ↦
      let mi' = if j == 0 then i else mi in
      let less : Good (rounds fuel) (2 * length cs + j + 2) ml =
        Good-le (rounds fuel) _ _ ml (omega (arith, l)) (rounds-Good fuel ml) in
      rw m (
        subst
          (λ d.
            Agrees i j ml (find (take j line_ends ++ (d ∷ cs)) line_ends)
              (fall_back (rounds fuel) (i + 1) cs (state (j + 1) mi' ml)))
          ((==_iff (byte_at line_ends j) c).0 m) (next_byte (rounds fuel) i j mi' ml cs less b))
  | inr m ↦ rw m (
      other_byte (rounds fuel) i j mi ml c cs
        (Good-le (rounds fuel) _ _ ml (omega (arith, l)) (rounds-Good fuel ml)) b
        (λ s. absurd (ground (arith, s, m))))
]

small_index : (p n : ℕ) → p ≤ n → n < 2 ^ 31 → to_int ((0 + 0 + p + 2 ^ 64 - 0) % 2 ^ 64) ≡ p
unfolding to_int
small_index p n a b = ground arith

-- What a search from the start gives, where the first place of the pattern is known.
abbrev pub Answers : Bytes → Option ℕ → Option (ℕ × Kmp) → Type 0
Answers text (some p) (some (q, k)) = (q ≡ p) × (k.match_len ≡ 0)
Answers text none (some (q, k)) = k.match_len ≡ length text
Answers text _ _ = ⊥

-- On a text below 2 ^ 31 bytes, a search for two line ends from the start state returns: where
-- `find` finds the pattern it gives the same index, and where `find` finds nothing it has counted
-- the whole text as seen.
pub search-find :
    (text : Bytes) → length text < 2 ^ 31 → Answers text (find text line_ends) (search text start)
unfolding search
search-find text h =
    let a = rounds-Good (2 * length text + 2) 0 0 0 minus_one text (omega arith) (omega arith) in
    go (find text line_ends) (rounds (2 * length text + 0 + 2) 0 text start)
      (find-within text line_ends)
      (subst (λ n. Agrees 0 0 0 (find text line_ends) (rounds n 0 text start)) (omega arith) a)
  where
    go :
        (o : Option ℕ) (s : Seen)
        → ((p : ℕ) → o ≡ some p → p ≤ length text)
        → Agrees 0 0 0 o s
        → Answers text o (elim s [
          | unfinished ↦ none
          | found p k1 ↦ some (to_int p, k1)
          | missing k1 ↦ some (
            to_int ((k1.match_index + k1.match_len) % 2 ^ 64),
            record k1 { match_len = (k1.match_len + length text) % 2 ^ 64 },
          )
        ])
    go none (missing k) w a = omega (arith, a, h)
    go (some p) (found q k) w a = (ap to_int a.0 ∙ small_index p (length text) (w p refl) h, a.1)
    go none unfinished w a = a
    go none (found q k) w a = absurd a
    go (some p) unfinished w a = a
    go (some p) (missing k) w a = absurd a
