-- ===== src/Http/Chunks.antt =====
-- `hex_str_to` and `http_msg::transfer_chunk` of src/http/httpmsg.cpp.
pub mod Hex
pub mod Held
pub mod Copied
use hcpp.Common.{
  ℕ, zero, suc, ◌+◌, ◌-◌, ◌*◌, ◌%◌, ◌^◌, Bool, true, false, not, ◌&&◌, ◌||◌, List, [], ◌∷◌, ◌++◌,
  Option, none, some, Bytes, length, take, ltb, leb, ◌==◌, if◌then◌else◌, find, codes, digit_of,
}
use hcpp.Memory.{Memory}
use hcpp.Http.Headers.{crlf}
use hcpp.Transfer.{transfer_mem}
use hcpp.Transfer.Until.{transfer_mem_until, load_size}

-- The value that `std::stoul` gives of hexadecimal digits, at most as many as the fuel.
unfoldable pub hex_number : ℕ → ℕ → Bytes → ℕ
hex_number zero n s = n
hex_number (suc k) n [] = n
hex_number (suc k) n (c ∷ cs) = elim (digit_of 16 c) [
  | none ↦ n
  | some v ↦ hex_number k (n * 16 + v) cs
]

-- `[1-9A-Fa-f][0-9A-Fa-f]{0,15}`, where it first matches.
unfoldable pub search_hex : Bytes → Option ℕ
search_hex [] = none
search_hex (c ∷ cs) =
    let later = search_hex cs in
    elim (digit_of 16 c) [
      | none ↦ later
      | some v ↦ if v == 0 then later else some (hex_number 15 v cs)
    ]

-- Zeros at the front, `^0{1,15}`, are the first choice of the expression; `none` is an exception.
unfoldable pub hex_str_to : Bytes → Option ℕ
hex_str_to [] = none
hex_str_to (c ∷ cs) = if c == b'0' then some 0 else search_hex (c ∷ cs)

-- What a `std::string` takes from a pointer: the bytes before the first 0.
unfoldable pub c_string : Bytes → Bytes
c_string [] = []
c_string (c ∷ cs) = let rest = c_string cs in if c == 0 then [] else c ∷ rest

module _ (Self To : Memory) where
  open Self use {Mem, async_load_some, get_some, merge_some}
  open To use {Mem as Out}

  -- What a transfer leaves; the exceptions of the source are `failed`.
  pub data Sent : Type 0 where
    unfinished failed : Sent
    sent : ℕ → Mem → Out → Sent

  -- The loop that reads the line of a chunk's size, up to 18 bytes.
  unfoldable pub read_size : ℕ → Bytes → Mem → Option (Bytes × Option ℕ × Mem)
  read_size zero cs_str m = none
  read_size (suc fuel) cs_str m =
      let p = find cs_str crlf in
      let (some_str, m1) = async_load_some load_size m in
      let more = read_size fuel (cs_str ++ take (18 - length cs_str) some_str) m1 in
      elim p [
        | some i ↦ some (cs_str, some i, m)
        | none ↦ if ltb (length cs_str) 18 then more else some (cs_str, none, m)
      ]

  unfoldable pub chunk_loop : ℕ → ℕ → Mem → Out → Sent
  chunk_loop zero n m t = unfinished
  chunk_loop (suc fuel) n m t = elim (read_size fuel (c_string (get_some m)) m) [
    | none ↦ unfinished
    | some (cs_str, p, m1) ↦ elim p [
      | none ↦ failed
      | some i ↦ elim (hex_str_to (take i cs_str)) [
        | none ↦ failed
        | some chunk_size ↦
            let complete_chunk_size = (i + 2 + chunk_size + 2) % 2 ^ 64 in
            if chunk_size == 0
            then elim (transfer_mem_until Self To fuel (codes "\r\n\r\n") m1 t) [
              | none ↦ unfinished
              | some (k, m2, t2) ↦ sent (n + k) m2 t2
            ]
            else elim (transfer_mem Self To fuel complete_chunk_size m1 t) [
              | none ↦ unfinished
              | some (tn, m2, t2) ↦
                  let rest = chunk_loop fuel (n + complete_chunk_size) m2 t2 in
                  if tn == complete_chunk_size then rest else failed
            ]
      ]
    ]
  ]

  unfoldable pub transfer_chunk : ℕ → Mem → Out → Sent
  transfer_chunk fuel m t = chunk_loop fuel 0 (merge_some m).1 t
