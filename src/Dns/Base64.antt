-- ===== src/Dns/Base64.antt =====
-- `b64url_encode` of src/dns/dnshttps.cc. `unsigned int` has 32 bits.
pub mod Decode
use hcpp.Common.{
  ℕ, suc, ◌+◌, ◌-◌, ◌*◌, ◌/◌, ◌%◌, ◌^◌, List, [], ◌∷◌, ◌++◌, Bytes, codes, length, get_or, leb,
  ◌==◌, if◌then◌else◌,
}

abbrev pub alphabet : Bytes
alphabet = codes "ABCDEFGHIJKLMNOPQRSTUVWXYZabcdefghijklmnopqrstuvwxyz0123456789-_"

-- `b64[k]`
unfoldable pub b64 : ℕ → ℕ
b64 k = get_or alphabet k 0

pub record Encoder : Type 0 where
  pub bits : ℕ
  pub char_count : ℕ
  pub dst : Bytes

shl : ℕ → ℕ → ℕ
shl x k = x * 2 ^ k % 2 ^ 32

-- One round of the loop.
unfoldable pub encode_byte : Encoder → ℕ → Encoder
unfolding shl
encode_byte s c =
    let bits = (s.bits + c) % 2 ^ 32 in
    let count = s.char_count + 1 in
    if count == 3
    then record {
      bits = 0;
      char_count = 0;
      dst =
          s.dst
          ++ (b64 (bits / 2 ^ 18)
              ∷ b64 (bits / 2 ^ 12 % 64)
              ∷ b64 (bits / 2 ^ 6 % 64)
              ∷ b64 (bits % 64)
              ∷ []);
    }
    else record { bits = shl bits 8; char_count = count; dst = s.dst }

pub encode_bytes : Encoder → Bytes → Encoder
encode_bytes s [] = s
encode_bytes s (c ∷ cs) = encode_bytes (encode_byte s c) cs

-- The bits that are left over when the source has ended.
unfoldable pub finish : Encoder → Bytes
unfolding shl
finish s =
    if s.char_count == 0
    then s.dst
    else let bits = shl s.bits (16 - 8 * s.char_count) in
      let two = s.dst ++ (b64 (bits / 2 ^ 18) ∷ b64 (bits / 2 ^ 12 % 64) ∷ []) in
      if s.char_count == 1 then two else two ++ (b64 (bits / 2 ^ 6 % 64) ∷ [])

-- `numeric_limits<unsigned int>::max() / 2`
abbrev pub size_limit : ℕ
size_limit = (2 ^ 32 - 1) / 2

unfoldable pub b64url_encode : Bytes → Bytes
unfolding encode_bytes
b64url_encode src =
    if leb size_limit (length src)
    then []
    else finish (encode_bytes (record { bits = 0; char_count = 0; dst = [] }) src)
