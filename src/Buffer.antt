-- ===== src/Buffer.antt =====
-- The receive buffer of src/http/socket_wrap.cpp (`socket_memory`), behind the interface `memory` of
-- src/hmemory.h. The buffer is an ordered set of blocks, keyed by the stream index of their first
-- byte. What the socket delivers is the argument of an operation that waits for it. The asserts of
-- the source are not steps of the model. Stream indices are below 2 ^ 64 and do not wrap.
pub mod Chain
pub mod Stream
pub mod Reads
pub mod Shown
use hcpp.Common.{
  ℕ, ◌+◌, ◌-◌, ◌%◌, ◌^◌, Bool, true, false, ◌&&◌, not, List, [], ◌∷◌, ◌++◌, Option, none, some,
  Bytes, length, take, drop, ltb, ◌==◌, if◌then◌else◌,
}

pub record MemBlock : Type 0 where
  pub begin : ℕ
  pub bytes : Bytes

pub record SocketMemory : Type 0 where
  pub read_ok : Bool
  pub write_ok : Bool
  pub closed : Bool
  pub buffs : List MemBlock
  pub read_index : ℕ
  pub write_index : ℕ

-- The completion of a read: the error flag, and the bytes that were put into the buffer.
pub record ReadResult : Type 0 where
  pub failed : Bool
  pub arrived : Bytes

-- The completion of a read up to a delimiter: the length up to and with the delimiter, 0 on an
-- error, and all that the stream buffer holds.
pub record UntilResult : Type 0 where
  pub matched : ℕ
  pub buffered : Bytes

abbrev pub fresh : SocketMemory
fresh = record {
  read_ok = true;
  write_ok = true;
  closed = false;
  buffs = [];
  read_index = 0;
  write_index = 0;
}

-- `std::set::emplace`: the element with the key of `b` afterwards, and the set. A key that is there
-- keeps its old element.
unfoldable pub emplace_at : MemBlock → List MemBlock → MemBlock
emplace_at b [] = b
emplace_at b (x ∷ xs) =
    let later = emplace_at b xs in
    if ltb b.begin x.begin then b else if ltb x.begin b.begin then later else x

unfoldable pub emplace : MemBlock → List MemBlock → List MemBlock
emplace b [] = b ∷ []
emplace b (x ∷ xs) =
    let later = x ∷ emplace b xs in
    if ltb b.begin x.begin then b ∷ x ∷ xs else if ltb x.begin b.begin then later else x ∷ xs

unfoldable pub async_load_some : ReadResult → SocketMemory → Bytes × SocketMemory
async_load_some r m =
    if r.failed
    then ([], record m { read_ok = false })
    else let block : MemBlock = record { begin = m.write_index; bytes = r.arrived } in
      (
        (emplace_at block m.buffs).bytes,
        record m { write_index = m.write_index + length r.arrived; buffs = emplace block m.buffs },
      )

-- The callers' delimiters have at most four bytes; the source throws on one above 512.
unfoldable pub async_load_until : UntilResult → SocketMemory → Bytes × SocketMemory
async_load_until r m =
    if r.matched == 0
    then ([], record m { read_ok = false })
    else let block : MemBlock = record { begin = m.write_index; bytes = r.buffered } in
      (
        take r.matched (emplace_at block m.buffs).bytes,
        record m { write_index = m.write_index + length r.buffered; buffs = emplace block m.buffs },
      )

-- The completion of a write: its error flag.
unfoldable pub async_write_all : Bool → SocketMemory → SocketMemory
async_write_all e m = if e then record m { write_ok = false } else m

-- The result is the number of bytes that the socket took; writing nothing ends the writing side.
unfoldable pub async_write_some : ℕ → Bytes → SocketMemory → ℕ × SocketMemory
async_write_some n [] m = (0, record m { write_ok = false })
async_write_some n (c ∷ s) m = (n, m)

-- The comparisons of the set take an `int`, so a `size_t` key is cut to 32 bits, and the sign is
-- extended when it is compared with a `size_t` again.
unfoldable pub as_int : ℕ → ℕ
as_int k = let w = k % 2 ^ 32 in if ltb w (2 ^ 31) then w else w + (2 ^ 64 - 2 ^ 32)

block_end : MemBlock → ℕ
block_end b = b.begin + length b.bytes

-- `std::set::find`: the first block that does not end at or before the key, if it has begun there.
pub find_block : ℕ → List MemBlock → Option MemBlock
unfolding block_end
find_block key [] = none
find_block key (x ∷ xs) =
    let later = find_block key xs in
    if ltb key (block_end x) then (if ltb key x.begin then none else some x) else later

unfoldable pub get_some : SocketMemory → Bytes
unfolding find_block as_int
get_some m = elim (find_block (as_int m.read_index) m.buffs) [
  | none ↦ []
  | some b ↦ drop (m.read_index - b.begin) b.bytes
]

-- The loop of `remove_some`: the blocks that are left, and the bytes of those that are erased.
pub erase_read : ℕ → List MemBlock → List MemBlock
unfolding block_end
erase_read r [] = []
erase_read r (x ∷ xs) = let rest = erase_read r xs in if ltb r (block_end x) then x ∷ xs else rest

pub erased_size : ℕ → List MemBlock → ℕ
unfolding block_end
erased_size r [] = 0
erased_size r (x ∷ xs) =
    let rest = erased_size r xs in if ltb r (block_end x) then 0 else length x.bytes + rest

unfoldable pub remove_some : ℕ → SocketMemory → ℕ × SocketMemory
unfolding erase_read erased_size
remove_some n m =
    let r = m.read_index + n in
    (erased_size r m.buffs, record m { read_index = r; buffs = erase_read r m.buffs })

-- The bytes of all blocks in order.
unfoldable pub flat : List MemBlock → Bytes
flat [] = []
flat (x ∷ xs) = x.bytes ++ flat xs

unfoldable pub merge_some : SocketMemory → ℕ × SocketMemory
unfolding flat
merge_some m = elim m.buffs [
  | [] ↦ (0, m)
  | x ∷ xs ↦ elim xs [
    | [] ↦ (0, m)
    | y ∷ ys ↦ (
      length (flat m.buffs),
      record m { buffs = record { begin = x.begin; bytes = flat m.buffs } ∷ [] },
    )
  ]
]

unfoldable pub reset : SocketMemory → SocketMemory
reset m = record m { read_index = 0; write_index = 0; buffs = [] }

-- The methods that `socket_memory` takes over from `memory`.
unfoldable pub ok : SocketMemory → Bool
ok m = m.read_ok && m.write_ok

unfoldable pub close : SocketMemory → SocketMemory
close m = record m { closed = true }

unfoldable pub alive : SocketMemory → Bool
alive m = not m.closed
