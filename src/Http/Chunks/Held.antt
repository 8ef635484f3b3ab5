-- ===== src/Http/Chunks/Held.antt =====
-- `http_msg::transfer_chunk` of src/http/httpmsg.cpp, where the body is in the buffer.
use hcpp.Common.{
  ℕ, suc, ◌+◌, ◌%◌, ◌^◌, ◌<◌, ◌≡◌, refl, ap, true, false, List, [], ◌∷◌, ◌++◌, some, Bytes, length,
  ◌==◌, arith, Lacks, find-pair, take-front,
}
use hcpp.Memory.{Memory}
use hcpp.Kmp.Places.{line_ends}
use hcpp.Transfer.{transfer_mem}
use hcpp.Transfer.Until.{transfer_mem_until}
use hcpp.Http.Chunks.{hex_str_to, c_string, sent, read_size, chunk_loop}

-- A chunk: its size as it stands in the line, extensions included, and its bytes.
pub record Chunk : Type 0 where
  pub line : Bytes
  pub content : Bytes

-- A line in which the end and a 0 do not stand.
abbrev pub IsLine : Bytes → Type 0
IsLine l = Lacks b'\r' l × Lacks 0 l

abbrev pub IsChunk : Chunk → Type 0
IsChunk c = IsLine c.line × (0 < length c.content) × (hex_str_to c.line ≡ some (length c.content))

abbrev pub AreChunks : List Chunk → Type 0
AreChunks [] = Unit {0}
AreChunks (c ∷ cs) = IsChunk c × AreChunks cs

abbrev pub end_line : Bytes → Bytes
end_line s = b'\r' ∷ b'\n' ∷ s

-- The chunks on the wire, and what stands behind them.
abbrev pub on_wire : List Chunk → Bytes → Bytes
on_wire [] behind = behind
on_wire (c ∷ cs) behind = c.line ++ end_line (c.content ++ end_line (on_wire cs behind))

c_string-line :
    (l behind : Bytes)
    → IsLine l
    → c_string (l ++ end_line behind) ≡ l ++ end_line (c_string behind)
unfolding c_string
c_string-line [] behind h = refl
c_string-line (x ∷ xs) behind (a, b) =
    let nonzero : (x == 0) ≡ false = ground (arith, b.0) in
    rw nonzero (ap (◌∷◌ x) (c_string-line xs behind (a.1, b.1)))

module _ (From To : Memory) where
  open From use {Mem, get_some}
  open To use {Mem as Out}

  read_size-line :
      (fuel : ℕ) (m : Mem) (l behind : Bytes)
      → IsLine l
      → read_size From To (suc fuel) (l ++ end_line behind) m
        ≡ some (l ++ end_line behind, some (length l), m)
  unfolding read_size
  read_size-line fuel m l behind h = rw (read_size, find-pair b'\r' b'\n' l behind h.0) refl

  -- A size above 0: the chunk is copied, and the loop goes on.
  pub chunk_loop-more :
      (fuel n v total : ℕ) (m m2 : Mem) (t t2 : Out) (l behind : Bytes)
      → get_some m ≡ l ++ end_line behind
      → IsLine l
      → hex_str_to l ≡ some v
      → 0 < v
      → (length l + 2 + v + 2) % 2 ^ 64 ≡ total
      → transfer_mem From To (suc fuel) total m t ≡ some (total, m2, t2)
      → chunk_loop From To (suc (suc fuel)) n m t ≡ chunk_loop From To (suc fuel) (n + total) m2 t2
  unfolding chunk_loop
  chunk_loop-more fuel n v total m m2 t t2 l behind shown h size p whole moved =
      let nonzero : (v == 0) ≡ false = ground arith in
      let same : (total == total) ≡ true = ground arith in
      rw
        (
          chunk_loop,
          shown,
          c_string-line l behind h,
          read_size-line fuel m l (c_string behind) h,
          take-front l (end_line (c_string behind)),
          size,
          nonzero,
          whole,
          moved,
          whole,
          same,
        )
        (ap (λ k. chunk_loop From To (suc fuel) (n + k) m2 t2) whole)

  -- A size of 0: the rest is copied up to two line ends.
  pub chunk_loop-last :
      (fuel n k : ℕ) (m m2 : Mem) (t t2 : Out) (l behind : Bytes)
      → get_some m ≡ l ++ end_line behind
      → IsLine l
      → hex_str_to l ≡ some 0
      → transfer_mem_until From To (suc fuel) line_ends m t ≡ some (k, m2, t2)
      → chunk_loop From To (suc (suc fuel)) n m t ≡ sent (n + k) m2 t2
  unfolding chunk_loop
  chunk_loop-last fuel n k m m2 t t2 l behind shown h size moved =
      rw
        (
          chunk_loop,
          shown,
          c_string-line l behind h,
          read_size-line fuel m l (c_string behind) h,
          take-front l (end_line (c_string behind)),
          size,
          moved,
        )
        refl
