-- ===== src/Common/Number.antt =====
-- Numbers in text: `std::to_string` of an unsigned number, and `strtoul`.
use hcpp.Common.Tests.{◌==◌, ltb, leb, if◌then◌else◌}
use Prim.Native.Nat.{ℕ, zero, suc, ◌+◌, ◌-◌, ◌*◌, ◌/◌, ◌%◌, ◌^◌}
use mathlib.Core.Bool.{Bool, ◌&&◌, ◌||◌}
use mathlib.Core.Option.{Option, none, some}
use mathlib.Core.List.{List, [], ◌∷◌, ◌++◌}

unfoldable pub decimal_of : ℕ → ℕ → List ℕ
decimal_of zero n = []
decimal_of (suc fuel) n =
    let more = decimal_of fuel (n / 10) in (if ltb n 10 then [] else more) ++ ((b'0' + n % 10) ∷ [])

-- Twenty digits are enough for 64 bits.
unfoldable pub to_string : ℕ → List ℕ
unfolding decimal_of
to_string n = decimal_of 20 n

-- The value of a digit in bases up to 16.
unfoldable pub digit_of : ℕ → ℕ → Option ℕ
digit_of base c =
    let v =
      if leb b'0' c && leb c b'9'
      then c - b'0'
      else if leb b'a' c && leb c b'f'
      then c - b'a' + 10
      else if leb b'A' c && leb c b'F'
      then c - b'A' + 10
      else 99 in
    if ltb v base then some v else none

pub digits_from : ℕ → ℕ → List ℕ → ℕ
unfolding digit_of
digits_from base acc [] = acc
digits_from base acc (c ∷ cs) = elim (digit_of base c) [
  | none ↦ acc
  | some v ↦ digits_from base (acc * base + v) cs
]

is_space : ℕ → Bool
is_space c = c == b' ' || (leb 9 c && leb c 13)

skip_space : List ℕ → List ℕ
unfolding is_space
skip_space [] = []
skip_space (c ∷ cs) = let rest = skip_space cs in if is_space c then rest else c ∷ cs

skip_prefix : ℕ → List ℕ → List ℕ
unfolding digit_of
skip_prefix base (z ∷ x ∷ d ∷ cs) =
    if base == 16 && z == b'0' && (x == b'x' || x == b'X')
    then elim (digit_of 16 d) [ none ↦ z ∷ x ∷ d ∷ cs | some v ↦ d ∷ cs ]
    else z ∷ x ∷ d ∷ cs
skip_prefix base s = s

-- A value that does not fit in 64 bits is the largest that does.
clamp64 : ℕ → ℕ
clamp64 v = if ltb v (2 ^ 64) then v else 2 ^ 64 - 1

signed_value : ℕ → List ℕ → ℕ
unfolding clamp64 digits_from skip_prefix
signed_value base [] = 0
signed_value base (c ∷ cs) =
    if c == b'-'
    then (let v = digits_from base 0 (skip_prefix base cs) in
        if ltb v (2 ^ 64) then (2 ^ 64 - v) % 2 ^ 64 else 2 ^ 64 - 1)
    else if c == b'+'
    then clamp64 (digits_from base 0 (skip_prefix base cs))
    else clamp64 (digits_from base 0 (skip_prefix base (c ∷ cs)))

unfoldable pub strtoul : ℕ → List ℕ → ℕ
unfolding signed_value skip_space
strtoul base s = signed_value base (skip_space s)
