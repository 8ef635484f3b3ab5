-- ===== src/Http/Chunks/Hex.antt =====
-- The size of a chunk.
use hcpp.Common.{
  ℕ, zero, suc, ◌+◌, ◌*◌, ◌/◌, ◌^◌, ◌≤◌, ◌<◌, false, List, [], ◌∷◌, some, ◌≡◌, refl, ap, arith,
  Bytes, length, ◌==◌, digit_of,
}
use hcpp.Http.Chunks.{hex_number, search_hex, hex_str_to}

-- Hexadecimal digits with their values.
abbrev pub AreHex : Bytes → List ℕ → Type 0
AreHex [] [] = Unit {0}
AreHex (c ∷ cs) (v ∷ vs) = (digit_of 16 c ≡ some v) × AreHex cs vs
AreHex _ _ = ⊥

-- The number that hexadecimal digits make behind the number `n`.
abbrev pub hexadecimal : ℕ → List ℕ → ℕ
hexadecimal n [] = n
hexadecimal n (v ∷ vs) = hexadecimal (n * 16 + v) vs

digit_of-small : (c v : ℕ) → digit_of 16 c ≡ some v → v < 16
unfolding digit_of
digit_of-small c v e = ground (arith, e)

hex_number-digits :
    (k n : ℕ) (cs : Bytes) (vs : List ℕ)
    → AreHex cs vs
    → length cs ≤ k
    → hex_number k n cs ≡ hexadecimal n vs
unfolding hex_number
hex_number-digits zero n [] [] a h = refl
hex_number-digits (suc k) n [] [] a h = refl
hex_number-digits zero n (c ∷ cs) vs a h = absurd (omega (arith, h))
hex_number-digits (suc k) n (c ∷ cs) (v ∷ vs) a h =
    rw (hex_number, a.0) (hex_number-digits k (n * 16 + v) cs vs a.1 (omega (arith, h)))
hex_number-digits (suc k) n [] (v ∷ vs) a h = absurd a
hex_number-digits (suc k) n (c ∷ cs) [] a h = absurd a
hex_number-digits zero n [] (v ∷ vs) a h = absurd a

-- What is left of 64 bits in front of a number of hexadecimal digits.
room : ℕ → ℕ
room zero = 2 ^ 64
room (suc k) = room k / 16

room-le : (k : ℕ) → room k ≤ 2 ^ 64
unfolding room
room-le zero = omega arith
room-le (suc k) = omega (arith, room-le k)

hexadecimal-small :
    (k n : ℕ) (cs : Bytes) (vs : List ℕ)
    → AreHex cs vs
    → length cs ≤ k
    → n < room k
    → hexadecimal n vs < 2 ^ 64
unfolding room
hexadecimal-small k n [] [] a h b = omega (arith, b, room-le k)
hexadecimal-small zero n (c ∷ cs) vs a h b = absurd (omega (arith, h))
hexadecimal-small (suc k) n (c ∷ cs) (v ∷ vs) a h b =
    hexadecimal-small k (n * 16 + v) cs vs a.1 (omega (arith, h))
      (omega (arith, b, digit_of-small c v a.0))
hexadecimal-small (suc k) n (c ∷ cs) [] a h b = absurd a
hexadecimal-small k n [] (v ∷ vs) a h b = absurd a

not_zero : (c v : ℕ) → digit_of 16 c ≡ some v → 0 < v → (c == b'0') ≡ false
unfolding digit_of
not_zero c v e p = ground (arith, e, p)

room_15 : room 15 ≡ 16
unfolding room
room_15 = refl

-- A size of 1 to 16 hexadecimal digits, the first not 0, has the value of its digits, which is
-- below 2 ^ 64.
pub hex_str_to-digits :
    (c v : ℕ) (cs : Bytes) (vs : List ℕ)
    → 0 < v
    → AreHex (c ∷ cs) (v ∷ vs)
    → length cs ≤ 15
    → (hex_str_to (c ∷ cs) ≡ some (hexadecimal v vs)) × (hexadecimal v vs < 2 ^ 64)
unfolding hex_str_to search_hex
hex_str_to-digits c v cs vs p a h =
    let z : (v == 0) ≡ false = ground (arith, p) in
    (
      rw (hex_str_to, search_hex, not_zero c v a.0 p, a.0, z)
          (ap some (hex_number-digits 15 v cs vs a.1 h)),
      hexadecimal-small 15 v cs vs a.1 h (omega (arith, room_15, digit_of-small c v a.0)),
    )
