-- ===== src/Memory.antt =====
-- The class `memory` of src/hmemory.h: the interface through which the proxy reads and writes both
-- of its peers, and what its callers rely on. An operation returns its value and the new state.
pub mod Connection
pub mod Tls
pub mod Shown
pub mod Worker
use hcpp.Common.{◌+◌, Bool, ℕ, ◌≤◌, ◌<◌, ◌≡◌, List, [], ◌∷◌, ◌++◌, Bytes, length, drop}

pub record Memory : Type 1 where
  pub Mem : Type 0
  pub async_load_some : ℕ → Mem → Bytes × Mem
  pub async_load_until : Bytes → Mem → Bytes × Mem
  pub async_write_all : Bytes → Mem → Mem
  pub get_some : Mem → Bytes
  pub remove_some : ℕ → Mem → ℕ × Mem
  pub merge_some : Mem → ℕ × Mem
  pub ok : Mem → Bool
  pub reset : Mem → Mem
  pub close : Mem → Mem
  pub alive : Mem → Bool

module _ (M : Memory) where
  open M use {Mem, async_load_some, get_some, remove_some, merge_some}

  -- A memory seen as a queue of received bytes, and the bytes that the peer has still to deliver.
  -- A read that delivers nothing is a read after the end of the peer's stream.
  pub record IsStream : Type 1 where
    pub IsValid : Mem → Type 0
    pub IsAddressable : Mem → Type 0
    pub pending : Mem → Bytes
    pub coming : Mem → Bytes
    pub load :
        (n : ℕ) (m : Mem)
        → IsValid m
        → 0 < n
        → let t = async_load_some n m in
          IsValid t.1
          × (length t.0 ≤ n)
          × (pending t.1 ≡ pending m ++ t.0)
          × (coming m ≡ t.0 ++ coming t.1)
          × (t.0 ≡ [] → coming m ≡ [])
    pub remove :
        (n : ℕ) (m : Mem)
        → IsValid m
        → n ≤ length (pending m)
        → let t = remove_some n m in
          IsValid t.1 × (pending t.1 ≡ drop n (pending m)) × (coming t.1 ≡ coming m)
    pub merge :
        (m : Mem)
        → IsValid m
        → let t = merge_some m in
          IsValid t.1
          × (pending t.1 ≡ pending m)
          × (coming t.1 ≡ coming m)
          × (IsAddressable m → get_some t.1 ≡ pending m)

-- What a stream shows of its queue after a merge and a removal. `HasRoom n` says that it is
-- addressable after the removal of up to `n` bytes.
module _ (M : Memory) (S : IsStream M) where
  open M use {Mem, get_some, remove_some, merge_some}
  open S use {IsValid, IsAddressable, pending}

  pub record IsShown : Type 1 where
    pub HasRoom : ℕ → Mem → Type 0
    pub room-addressable : (n : ℕ) (m : Mem) → HasRoom n m → IsAddressable m
    pub room-remove :
        (n k : ℕ) (m : Mem) → HasRoom (n + k) m → HasRoom k (remove_some n (merge_some m).1).1
    pub room-merge : (n : ℕ) (m : Mem) → HasRoom n m → HasRoom n (merge_some m).1
    pub shows :
        (n k : ℕ) (m : Mem)
        → IsValid m
        → n ≤ length (pending m)
        → HasRoom (n + k) m
        → get_some (remove_some n (merge_some m).1).1 ≡ drop n (pending m)
