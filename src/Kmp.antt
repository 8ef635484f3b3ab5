-- ===== src/Kmp.antt =====
-- The class `untrust::KMP` of src/untrust/kmp.h. A value of type `int` is kept as the number that it
-- is converted to as a `std::size_t`.
pub mod Places
pub mod Search
use hcpp.Common.{
  ℕ, zero, suc, ◌+◌, ◌-◌, ◌*◌, ◌%◌, ◌^◌, Bool, true, false, ◌||◌, not, List, [], ◌∷◌, ◌++◌, Option,
  none, some, Bytes, length, get_elem?, get_or, drop, ltb, leb, ◌==◌, if◌then◌else◌,
}

-- `pattern_[i]`; behind the last byte stands a 0.
abbrev pub byte_at : Bytes → ℕ → ℕ
byte_at s i = get_or s i 0

-- The table grows from its front: an entry is written when the index goes on. `none` is a loop that
-- has not returned.
unfoldable pub compute_lps : ℕ → Bytes → ℕ → ℕ → List ℕ → Option (List ℕ)
compute_lps zero pattern i len lps = none
compute_lps (suc fuel) pattern i len lps =
    let matched = compute_lps fuel pattern (i + 1) (len + 1) (lps ++ ((len + 1) ∷ [])) in
    let shorter = compute_lps fuel pattern i (get_or lps (len - 1) 0) lps in
    let without = compute_lps fuel pattern (i + 1) len (lps ++ (0 ∷ [])) in
    if ltb i (length pattern)
    then (if byte_at pattern i == byte_at pattern len
        then matched
        else if not (len == 0)
        then shorter
        else without)
    else some lps

-- `j`, `matchIndex` and `match_len_`
pub record Kmp : Type 0 where
  pub lps : List ℕ
  pub pattern : Bytes
  pub j : ℕ
  pub match_index : ℕ
  pub match_len : ℕ

-- `-1`
abbrev pub minus_one : ℕ
minus_one = 2 ^ 64 - 1

unfoldable pub kmp : Bytes → Option Kmp
kmp pattern = elim (compute_lps (2 * length pattern + 1) pattern 1 0 (0 ∷ [])) [
  | none ↦ none
  | some lps ↦
      some (record { lps = lps; pattern = pattern; j = 0; match_index = minus_one; match_len = 0 })
]

-- A `std::size_t` converted to `int`.
unfoldable pub to_int : ℕ → ℕ
to_int v = let w = v % 2 ^ 32 in if ltb w (2 ^ 31) then w else w + (2 ^ 64 - 2 ^ 32)

-- Whether the loop found the pattern, and where; `text` is what is left behind the index `i`.
pub data Seen : Type 0 where
  unfinished : Seen
  found : ℕ → Kmp → Seen
  missing : Kmp → Seen

-- The second half of a round, behind the test of the first.
unfoldable pub fall_back : (ℕ → Bytes → Kmp → Seen) → ℕ → Bytes → Kmp → Seen
fall_back again i text k =
    if k.j == length k.pattern
    then found ((i + k.match_len + 2 ^ 64 - k.j) % 2 ^ 64) k
    else elim text [
      | [] ↦ again i [] k
      | c ∷ cs ↦
          if byte_at k.pattern k.j == c
          then again i (c ∷ cs) k
          else if not (k.j == 0)
          then again i (c ∷ cs) (record k { j = get_or k.lps (k.j - 1) 0 })
          else again (i + 1) cs k
    ]

unfoldable pub rounds : ℕ → ℕ → Bytes → Kmp → Seen
rounds zero i text k = unfinished
rounds (suc fuel) i [] k = missing k
rounds (suc fuel) i (c ∷ cs) k =
    if byte_at k.pattern k.j == c
    then fall_back (rounds fuel) (i + 1) cs
        (record k { j = k.j + 1; match_index = if k.j == 0 then i else k.match_index })
    else fall_back (rounds fuel) i (c ∷ cs) k

-- The index, and the state for the next text.
unfoldable pub search : Bytes → Kmp → Option (ℕ × Kmp)
search text k = elim (rounds (2 * length text + k.j + 2) 0 text k) [
  | unfinished ↦ none
  | found p k1 ↦ some (to_int p, k1)
  | missing k1 ↦ some (
    to_int ((k1.match_index + k1.match_len) % 2 ^ 64),
    record k1 { match_len = (k1.match_len + length text) % 2 ^ 64 },
  )
]
