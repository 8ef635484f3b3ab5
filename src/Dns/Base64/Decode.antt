-- ===== src/Dns/Base64/Decode.antt =====
-- The encoder against an independent decoder, written after RFC 4648, section 5.
use hcpp.Common.{
  ℕ, zero, suc, ◌+◌, ◌-◌, ◌*◌, ◌/◌, ◌%◌, ◌<◌, Bool, true, false, ◌&&◌, [], ◌∷◌, ◌++◌, Option, none,
  some, ◌≡◌, refl, sym, ap, ◌∙◌, arith, Bytes, length, leb, ◌==◌, if◌then◌else◌, append_assoc,
  append-nil,
}
use hcpp.Dns.Base64.{b64, Encoder, encode_byte, encode_bytes, finish, b64url_encode, size_limit}

-- The value of a digit.
pub sextet : ℕ → Option ℕ
sextet c =
    if leb b'A' c && leb c b'Z'
    then some (c - b'A')
    else if leb b'a' c && leb c b'z'
    then some (c - b'a' + 26)
    else if leb b'0' c && leb c b'9'
    then some (c - b'0' + 52)
    else if c == b'-'
    then some 62
    else if c == b'_'
    then some 63
    else none

infixl 5 ◌>>=◌
abbrev ◌>>=◌ {ℓ κ} : {A : Type ℓ} {B : Type κ} → Option A → (A → Option B) → Option B
none >>= f = none
some a >>= f = f a

-- Four digits make three bytes; two digits make one, three make two.
pub decode : Bytes → Option Bytes
decode [] = some []
decode (w ∷ []) = none
decode (w ∷ x ∷ []) = do a ← sextet w; b ← sextet x; some ((a * 4 + b / 16) ∷ [])
decode (w ∷ x ∷ y ∷ []) = do
  a ← sextet w
  b ← sextet x
  c ← sextet y
  some ((a * 4 + b / 16) ∷ (b % 16 * 16 + c / 4) ∷ [])
decode (w ∷ x ∷ y ∷ z ∷ r) = do
  a ← sextet w
  b ← sextet x
  c ← sextet y
  d ← sextet z
  rest ← decode r
  some ((a * 4 + b / 16) ∷ (b % 16 * 16 + c / 4) ∷ (c % 4 * 64 + d) ∷ rest)

is_some_of : ℕ → Option ℕ → Bool
is_some_of k none = false
is_some_of k (some a) = a == k

-- A test holds of every number under a bound.
holds_under : (ℕ → Bool) → ℕ → Bool
holds_under test zero = true
holds_under test (suc bound) = holds_under test bound && test bound

holds_under-elim :
    (test : ℕ → Bool) (bound : ℕ)
    → holds_under test bound ≡ true
    → {k : ℕ} → k < bound
    → test k ≡ true
unfolding holds_under
holds_under-elim test zero all h = absurd (omega arith)
holds_under-elim test (suc bound) all {k = k} h =
    ground (
      arith,
      λ (e : holds_under test bound ≡ true) (l : k < bound). holds_under-elim test bound e l,
    )

digits_table : holds_under (λ k. is_some_of k (sextet (b64 k))) 64 ≡ true
unfolding holds_under is_some_of sextet b64
digits_table = refl

is_some_of_lem : (k : ℕ) (o : Option ℕ) → is_some_of k o ≡ true → o ≡ some k
unfolding is_some_of
is_some_of_lem k none h = cc
is_some_of_lem k (some a) h = ground arith

pub sextet-b64 : (k : ℕ) → k < 64 → sextet (b64 k) ≡ some k
sextet-b64 k h =
    is_some_of_lem k (sextet (b64 k))
      (holds_under-elim (λ k. is_some_of k (sextet (b64 k))) 64 digits_table h)

abbrev pub AreBytes : Bytes → Type 0
AreBytes [] = Unit {0}
AreBytes (c ∷ cs) = (c < 256) × AreBytes cs

abbrev start : Bytes → Encoder
start d = record { bits = 0; char_count = 0; dst = d }

-- The digits of a text, group by group.
digits : Bytes → Bytes
digits [] = []
digits (a ∷ []) = b64 (a / 4) ∷ b64 (a % 4 * 16) ∷ []
digits (a ∷ b ∷ []) = b64 (a / 4) ∷ b64 (a % 4 * 16 + b / 16) ∷ b64 (b % 16 * 4) ∷ []
digits (a ∷ b ∷ c ∷ r) =
    b64 (a / 4) ∷ b64 (a % 4 * 16 + b / 16) ∷ b64 (b % 16 * 4 + c / 64) ∷ b64 (c % 64) ∷ digits r

encode_group :
    (a b c : ℕ) (d : Bytes)
    → a < 256
    → b < 256
    → c < 256
    → encode_byte (encode_byte (encode_byte (start d) a) b) c
      ≡ start (
          d
          ++ (b64 (a / 4)
              ∷ b64 (a % 4 * 16 + b / 16)
              ∷ b64 (b % 16 * 4 + c / 64)
              ∷ b64 (c % 64)
              ∷ []))
unfolding encode_byte
encode_group a b c d ha hb hc = ground arith

finish-digits :
    (src d : Bytes) → AreBytes src → finish (encode_bytes (start d) src) ≡ d ++ digits src
unfolding digits encode_bytes
finish-digits [] d h = unfold finish in sym (append-nil d)
finish-digits (a ∷ []) d h = unfold finish encode_byte in ground arith
finish-digits (a ∷ b ∷ []) d h =
    unfold finish encode_byte in append_assoc d _ _ ∙ ap (◌++◌ d) (ground arith)
finish-digits (a ∷ b ∷ c ∷ r) d h =
    rw (encode_group a b c d h.0 h.1.0 h.1.1.0)
      (finish-digits r _ h.1.1.1 ∙ append_assoc d _ (digits r))

decode-digits : (src : Bytes) → AreBytes src → decode (digits src) ≡ some src
unfolding decode digits
decode-digits [] h = refl
decode-digits (a ∷ []) h =
    rw (sextet-b64 (a / 4) (omega arith), sextet-b64 (a % 4 * 16) (omega arith)) (ground arith)
decode-digits (a ∷ b ∷ []) h =
    rw
      (
        sextet-b64 (a / 4) (omega arith),
        sextet-b64 (a % 4 * 16 + b / 16) (omega arith),
        sextet-b64 (b % 16 * 4) (omega arith),
      )
      (ground arith)
decode-digits (a ∷ b ∷ c ∷ r) h =
    rw
      (
        sextet-b64 (a / 4) (omega arith),
        sextet-b64 (a % 4 * 16 + b / 16) (omega arith),
        sextet-b64 (b % 16 * 4 + c / 64) (omega arith),
        sextet-b64 (c % 64) (omega arith),
        decode-digits r h.1.1.1,
      )
      (ground arith)

-- For every list of bytes below the size limit of the code, decoding what the encoder writes, by a
-- decoder of base64url without padding, gives the source.
pub decode-b64url_encode :
    (src : Bytes) → AreBytes src → length src < size_limit → decode (b64url_encode src) ≡ some src
unfolding b64url_encode
decode-b64url_encode src h small =
    let fits : leb size_limit (length src) ≡ false = ground arith in
    rw (fits, finish-digits src [] h) (decode-digits src h)
