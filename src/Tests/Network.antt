-- ===== src/Tests/Network.antt =====
-- A socket that delivers one byte at a time, a buffer with two blocks over it, and a peer that keeps
-- what is written to it.
use hcpp.Common.{ℕ, ◌≤◌, ◌<◌, true, false, [], ◌∷◌, ◌++◌, none, ◌≡◌, refl, arith, Bytes, length}
use hcpp.Buffer.{SocketMemory, ReadResult, async_load_some, remove_some, flat}
use hcpp.Buffer.Chain.{IsValid, pending}
use hcpp.Buffer.Stream.{async_load_some-pending}
use hcpp.Buffer.Reads.{remove_some-pending}
use hcpp.Memory.{Memory}
use hcpp.Memory.Connection.{Socket, Connection, connection, stream}
use hcpp.Transfer.{transfer_mem}
use hcpp.Transfer.Moved.{Moved}
use hcpp.Transfer.Exact.{transfer_mem-exact, transfer_mem-never_returns}

abbrev pub deliver : ℕ → Bytes → ReadResult × Bytes
deliver n [] = (record { failed = true; arrived = [] }, [])
deliver n (c ∷ s) = (record { failed = false; arrived = c ∷ [] }, s)

pub deliver-reads :
    (n : ℕ) (s : Bytes)
    → 0 < n
    → (deliver n s).0.failed ≡ false
    → (0 < length (deliver n s).0.arrived)
      × (length (deliver n s).0.arrived ≤ n)
      × (s ≡ (deliver n s).0.arrived ++ (deliver n s).1)
deliver-reads n [] p e = cc
deliver-reads n (c ∷ s) p e = (omega arith, omega arith, refl)

pub deliver-fails :
    (n : ℕ) (s : Bytes) → 0 < n → (deliver n s).0.failed ≡ true → (s ≡ []) × ((deliver n s).1 ≡ [])
deliver-fails n [] p e = (refl, refl)
deliver-fails n (c ∷ s) p e = cc

-- What still arrives, and what was written.
abbrev pub one_by_one : Socket
one_by_one = record {
  Sock = Bytes × Bytes;
  async_read_some = λ n s. let (r, left) = deliver n s.0 in (r, (left, s.1));
  async_read_until = λ d s. (record { matched = length s.0; buffered = s.0 }, ([], s.1));
  async_write = λ t s. (false, (s.0, s.1 ++ t));
  arriving = λ s. s.0;
  delivered = λ s. s.1;
  reads = λ n s. deliver-reads n s.0;
  fails = λ n s. deliver-fails n s.0;
  read_keeps = λ n s. refl;
  write_keeps = λ d s. refl;
  writes = λ d s e. refl;
}

abbrev pub sink : Memory
sink = record {
  Mem = Bytes;
  async_load_some = λ n t. ([], t);
  async_load_until = λ d t. ([], t);
  async_write_all = λ s t. t ++ s;
  get_some = λ t. [];
  remove_some = λ n t. (0, t);
  merge_some = λ t. (0, t);
  ok = λ t. true;
  reset = λ t. t;
  close = λ t. t;
  alive = λ t. true;
}

-- Bytes 0 to 4 were received in two blocks, and byte 0 was removed.
abbrev two_blocks : SocketMemory
two_blocks = record {
  read_ok = true;
  write_ok = true;
  closed = false;
  buffs =
      record { begin = 0; bytes = 10 ∷ 11 ∷ 12 ∷ [] }
      ∷ record { begin = 3; bytes = 13 ∷ 14 ∷ [] }
      ∷ [];
  read_index = 1;
  write_index = 5;
}

two_blocks-IsValid : IsValid two_blocks
two_blocks-IsValid = record {
  chain = (refl, omega arith, (refl, omega arith, refl));
  starts = (omega arith, omega arith);
}

async_load_some-pending_example :
    pending (async_load_some (record { failed = false; arrived = 15 ∷ [] }) two_blocks).1
    ≡ 11 ∷ 12 ∷ 13 ∷ 14 ∷ 15 ∷ []
unfolding flat
async_load_some-pending_example =
    (async_load_some-pending two_blocks (15 ∷ []) two_blocks-IsValid (omega arith)).1

remove_some-pending_example : pending (remove_some 3 two_blocks).1 ≡ 14 ∷ []
unfolding flat
remove_some-pending_example = (remove_some-pending two_blocks 3 two_blocks-IsValid (omega arith)).0

-- Four bytes are buffered, and two still come.
abbrev download : Connection one_by_one
download = record { sock = (20 ∷ 21 ∷ [], []); buffer = two_blocks }

transfer_mem-exact_example :
    Moved
      (connection one_by_one)
      sink
      (stream one_by_one)
      5
      5
      (pending two_blocks ++ (20 ∷ 21 ∷ []))
      []
      (transfer_mem (connection one_by_one) sink 6 5 download [])
unfolding stream flat
transfer_mem-exact_example =
    transfer_mem-exact (connection one_by_one) sink (stream one_by_one) 6 5 download []
      two_blocks-IsValid (omega arith) (omega arith) (omega arith)

transfer_mem-never_returns_example :
    transfer_mem (connection one_by_one) sink 100 7 download [] ≡ none
unfolding stream flat
transfer_mem-never_returns_example =
    transfer_mem-never_returns (connection one_by_one) sink (stream one_by_one) 100 7 download []
      two_blocks-IsValid (omega arith) (omega arith)
