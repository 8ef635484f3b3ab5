-- ===== src/Buffer/Stream.antt =====
-- What each operation of the buffer does to the queue of received bytes that `pending` reads off it.
use hcpp.Common.{
  ℕ, ◌+◌, ◌-◌, ◌≤◌, ◌<◌, false, List, [], ◌∷◌, ◌++◌, ◌≡◌, refl, ap, arith, Bytes, length, drop,
  length-append, length-drop, drop-append_le,
}
use hcpp.Buffer.{MemBlock, SocketMemory, async_load_some, emplace, flat}
use hcpp.Buffer.Chain.{
  Chain, base, Starts, IsValid, pending, Chain-length, Chain-concat, emplace-Chain,
  emplace_at-Chain, flat-concat,
}

pub base_le : (r : ℕ) (xs : List MemBlock) → Starts r xs → base r xs ≤ r
base_le r [] s = omega arith
base_le r (x ∷ xs) s = s.0

-- The read index has not passed the bytes that were received.
read-le-flat :
    (r e : ℕ) (xs : List MemBlock)
    → Chain (base r xs) xs e
    → Starts r xs
    → r - base r xs ≤ length (flat xs)
unfolding flat
read-le-flat r e [] c s = omega arith
read-le-flat r e (x ∷ xs) c s = omega (arith, length-append x.bytes (flat xs))

-- The number of bytes that are pending.
pub length-pending :
    (m : SocketMemory) → IsValid m → m.read_index + length (pending m) ≡ m.write_index
length-pending m v = omega (
  arith,
  Chain-length (base m.read_index m.buffs) m.write_index m.buffs v.chain,
  length-drop (m.read_index - base m.read_index m.buffs) (flat m.buffs),
  base_le m.read_index m.buffs v.starts,
  read-le-flat m.read_index m.write_index m.buffs v.chain v.starts,
)

-- A block that is put behind a chain.
module _ (r e : ℕ) (xs : List MemBlock) (d : MemBlock) (chain : Chain (base r xs) xs e)
    (starts : Starts r xs) (begins : d.begin ≡ e) (some_byte : 0 < length d.bytes) where
  base-emplace : base r (emplace d xs) ≡ base r xs
  base-emplace = rw (emplace-Chain (base r xs) e xs d chain begins) (of xs chain)
    where
      of : (ys : List MemBlock) → Chain (base r ys) ys e → base r (ys ++ d ∷ []) ≡ base r ys
      of [] c = omega arith
      of (y ∷ ys) c = refl

  Starts-emplace : Starts r (emplace d xs)
  Starts-emplace = rw (emplace-Chain (base r xs) e xs d chain begins) (of xs chain starts)
    where
      of : (ys : List MemBlock) → Chain (base r ys) ys e → Starts r ys → Starts r (ys ++ d ∷ [])
      of [] c s = (omega arith, omega arith)
      of (y ∷ ys) c s = s

  Chain-emplace : Chain (base r (emplace d xs)) (emplace d xs) (e + length d.bytes)
  Chain-emplace =
      rw (base-emplace, emplace-Chain (base r xs) e xs d chain begins)
        (Chain-concat (base r xs) e xs d chain begins some_byte)

  drop-emplace :
      drop (r - base r (emplace d xs)) (flat (emplace d xs))
      ≡ drop (r - base r xs) (flat xs) ++ d.bytes
  drop-emplace =
      rw (base-emplace, emplace-Chain (base r xs) e xs d chain begins, flat-concat xs d)
        (drop-append_le (r - base r xs) (flat xs) d.bytes (read-le-flat r e xs chain starts))

abbrev pub block_of : ℕ → Bytes → MemBlock
block_of b d = record { begin = b; bytes = d }

-- What a read does that delivered some bytes: the state after it.
abbrev pub received : Bytes → SocketMemory → SocketMemory
received d m = record m {
  write_index = m.write_index + length d;
  buffs = emplace (block_of m.write_index d) m.buffs;
}

pub received-IsValid :
    (m : SocketMemory) (d : Bytes) → IsValid m → 0 < length d → IsValid (received d m)
received-IsValid m d v p = record {
  chain = Chain-emplace m.read_index m.write_index m.buffs _ v.chain v.starts refl p;
  starts = Starts-emplace m.read_index m.write_index m.buffs _ v.chain v.starts refl p;
}

pub pending-received :
    (m : SocketMemory) (d : Bytes)
    → IsValid m
    → 0 < length d
    → pending (received d m) ≡ pending m ++ d
pending-received m d v p =
    drop-emplace m.read_index m.write_index m.buffs (block_of m.write_index d) v.chain v.starts refl
      p

-- On a valid buffer, a read that delivers one or more bytes returns exactly these, puts them
-- behind the pending ones, moves the write index by their number and leaves a valid buffer.
pub async_load_some-pending :
    (m : SocketMemory) (d : Bytes)
    → IsValid m
    → 0 < length d
    → let t = async_load_some (record { failed = false; arrived = d }) m in
      (t.0 ≡ d)
      × (pending t.1 ≡ pending m ++ d)
      × (t.1.write_index ≡ m.write_index + length d)
      × IsValid t.1
unfolding async_load_some
async_load_some-pending m d v p = (
  ap (λ b. b.bytes)
      (emplace_at-Chain _ m.write_index m.buffs (block_of m.write_index d) v.chain refl),
  pending-received m d v p,
  refl,
  received-IsValid m d v p,
)
