-- ===== src/Common/Search.antt =====
-- What the searches find, and cuts where they find it.
use Prim.Native.Nat.{ℕ, suc, ◌+◌, ◌≤◌}
use mathlib.Core.Path.{◌≡◌, refl, ap, ◌∙◌}
use mathlib.Core.Logic.{◌≢◌}
use mathlib.Core.Bool.{true}
use mathlib.Core.Option.{none, some}
use mathlib.Core.List.{List, [], ◌∷◌, ◌++◌}
use native.Mathlib.Omega.{arith}
use mathlib.Core.Logic.{inl, inr}
use hcpp.Common.Tests.{Option-cases, Bool-cases}
use hcpp.Common.Lists.{length, take, drop}
use hcpp.Common.Text.{find, starts_with}

-- `c` is not in the text.
abbrev pub Lacks : ℕ → List ℕ → Type 0
Lacks c [] = Unit {0}
Lacks c (x ∷ xs) = (x ≢ c) × Lacks c xs

pub find-byte :
    (c : ℕ) (l behind : List ℕ) → Lacks c l → find (l ++ (c ∷ behind)) (c ∷ []) ≡ some (length l)
unfolding find starts_with
find-byte c [] behind a = ground arith
find-byte c (x ∷ xs) behind a = ground (arith, find-byte c xs behind a.1)

pub find-absent : (c : ℕ) (l : List ℕ) → Lacks c l → find l (c ∷ []) ≡ none
unfolding find starts_with
find-absent c [] a = ground arith
find-absent c (x ∷ xs) a = ground (arith, find-absent c xs a.1)

pub find-pair :
    (c d : ℕ) (l behind : List ℕ)
    → Lacks c l
    → find (l ++ (c ∷ d ∷ behind)) (c ∷ d ∷ []) ≡ some (length l)
unfolding find starts_with
find-pair c d [] behind a = ground arith
find-pair c d (x ∷ xs) behind a = ground (arith, find-pair c d xs behind a.1)

pub Lacks-append : (c : ℕ) (xs ys : List ℕ) → Lacks c xs → Lacks c ys → Lacks c (xs ++ ys)
Lacks-append c [] ys a b = b
Lacks-append c (x ∷ xs) ys a b = (a.0, Lacks-append c xs ys a.1 b)

pub take-front : (l behind : List ℕ) → take (length l) (l ++ behind) ≡ l
take-front [] behind = refl
take-front (x ∷ xs) behind = ap (◌∷◌ x) (take-front xs behind)

pub drop-front : (l behind : List ℕ) → drop (length l) (l ++ behind) ≡ behind
drop-front [] behind = refl
drop-front (x ∷ xs) behind = drop-front xs behind

pub drop-byte : (c : ℕ) (l behind : List ℕ) → drop (length l + 1) (l ++ (c ∷ behind)) ≡ behind
drop-byte c [] behind = refl
drop-byte c (x ∷ xs) behind =
    ap (λ k. drop k (x ∷ (xs ++ (c ∷ behind)))) {x = suc (length xs) + 1} {y = suc (length xs + 1)}
      (omega arith)
    ∙ drop-byte c xs behind

pub drop-pair : (c d : ℕ) (l behind : List ℕ) → drop (length l + 2) (l ++ (c ∷ d ∷ behind)) ≡ behind
drop-pair c d [] behind = refl
drop-pair c d (x ∷ xs) behind =
    ap (λ k. drop k (x ∷ (xs ++ (c ∷ d ∷ behind)))) {x = suc (length xs) + 2}
      {y = suc (length xs + 2)} (omega arith)
    ∙ drop-pair c d xs behind

-- A place that is found is in the text.
pub find-within : (l p : List ℕ) (k : ℕ) → find l p ≡ some k → k ≤ length l
unfolding find starts_with
find-within [] p k e = ground (arith, e)
find-within (x ∷ xs) p k e = elim (Option-cases (find xs p)) [
  | inl n ↦ ground (arith, n, e)
  | inr (i, n) ↦ let b = find-within xs p i n in ground (arith, n, e, b)
]

starts_with-length : (l p : List ℕ) → starts_with l p ≡ true → length p ≤ length l
unfolding starts_with
starts_with-length l [] e = omega arith
starts_with-length [] (y ∷ p) e = ground (arith, e)
starts_with-length (x ∷ l) (y ∷ p) e =
    let more : starts_with l p ≡ true = ground (arith, e) in
    omega (arith, starts_with-length l p more)

-- The whole pattern stands there.
pub find-room : (l p : List ℕ) (k : ℕ) → find l p ≡ some k → k + length p ≤ length l
unfolding find
find-room [] p k e = elim (Bool-cases (starts_with [] p)) [
  | inl s ↦ let b = starts_with-length [] p s in ground (arith, e, s, b)
  | inr s ↦ ground (arith, e, s)
]
find-room (x ∷ xs) p k e = elim (Bool-cases (starts_with (x ∷ xs) p)) [
  | inl s ↦ let b = starts_with-length (x ∷ xs) p s in ground (arith, e, s, b)
  | inr s ↦ elim (Option-cases (find xs p)) [
    | inl n ↦ ground (arith, n, e, s)
    | inr (i, n) ↦ let b = find-room xs p i n in ground (arith, n, e, s, b)
  ]
]
