-- ===== src/Dns/Name/Wire.antt =====
-- Names in text and on the wire, as RFC 1035, section 3.1, has them.
use hcpp.Common.{
  ℕ, zero, suc, ◌+◌, ◌≤◌, ◌<◌, List, [], ◌∷◌, ◌++◌, ◌≡◌, ◌≢◌, ◌⊎◌, ap, arith, Bytes, length, get_or,
  length-append,
}
use hcpp.Dns.Name.{dot}

-- No dot and no end of string.
abbrev pub IsPlain : Bytes → Type 0
IsPlain [] = Unit {0}
IsPlain (c ∷ cs) = (c ≢ 46) × (c ≢ 0) × IsPlain cs

-- Labels as RFC 1035 has them: 1 to 63 bytes.
abbrev pub AreLabels : List Bytes → Type 0
AreLabels [] = Unit {0}
AreLabels (l ∷ ls) = IsPlain l × (0 < length l) × (length l ≤ 63) × AreLabels ls

-- The wire form: each label behind its length, and a zero at the end.
unfoldable pub wire : List Bytes → Bytes
wire [] = 0 ∷ []
wire (l ∷ ls) = length l ∷ (l ++ wire ls)

-- The text form: the labels with dots between them, and `tail` behind the last one.
unfoldable pub dotted : Bytes → List Bytes → Bytes
dotted tail [] = []
dotted tail (l ∷ []) = l ++ tail
dotted tail (l ∷ k ∷ ls) = l ++ (dot ∷ dotted tail (k ∷ ls))

-- The optional dot at the end of a host.
abbrev pub IsTail : Bytes → Type 0
IsTail t = (t ≡ []) ⊎ (t ≡ dot ∷ [])

pub get_or-append :
    (pre ys : Bytes) (k n : ℕ) → n ≡ length pre + k → get_or (pre ++ ys) n 0 ≡ get_or ys k 0
get_or-append [] ys k n e = ap (λ i. get_or ys i 0) (omega arith)
get_or-append (x ∷ xs) ys k zero e = absurd (omega arith)
get_or-append (x ∷ xs) ys k (suc n) e = get_or-append xs ys k n (omega arith)

pub length-wire-dotted :
    (tail : Bytes) (ls : List Bytes)
    → 0 < length ls
    → length (wire ls) ≤ length (dotted tail ls) + 2
unfolding wire dotted
length-wire-dotted tail [] n = absurd (omega arith)
length-wire-dotted tail (l ∷ []) n = omega (arith, length-append l tail, length-append l (0 ∷ []))
length-wire-dotted tail (l ∷ k ∷ ls) n = omega (
  arith,
  length-wire-dotted tail (k ∷ ls) (omega arith),
  length-append l (wire (k ∷ ls)),
  length-append l (dot ∷ dotted tail (k ∷ ls)),
)
