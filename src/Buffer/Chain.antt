-- ===== src/Buffer/Chain.antt =====
-- The invariant of the block set: the blocks are not empty and follow one another without a gap.
use hcpp.Common.{
  ℕ, ◌+◌, ◌-◌, ◌≤◌, ◌<◌, List, [], ◌∷◌, ◌++◌, ◌≡◌, refl, ap, sym, ◌∙◌, arith, Bytes, length, drop,
  length-append, drop-append_ge, drop-nil, append_assoc, append-nil,
}
use hcpp.Buffer.{MemBlock, SocketMemory, emplace_at, emplace, erase_read, erased_size, flat}

-- Blocks from `b` up to `e`.
abbrev pub Chain : ℕ → List MemBlock → ℕ → Type 0
Chain b [] e = b ≡ e
Chain b (x ∷ xs) e = (x.begin ≡ b) × (0 < length x.bytes) × Chain (b + length x.bytes) xs e

-- Where the first block begins; `r` if there is none.
abbrev pub base : ℕ → List MemBlock → ℕ
base r [] = r
base r (x ∷ xs) = x.begin

-- `r` lies in the first block.
abbrev pub Starts : ℕ → List MemBlock → Type 0
Starts r [] = Unit {0}
Starts r (x ∷ xs) = (x.begin ≤ r) × (r < x.begin + length x.bytes)

pub record IsValid (m : SocketMemory) : Type 0 where
  pub chain : Chain (base m.read_index m.buffs) m.buffs m.write_index
  pub starts : Starts m.read_index m.buffs

-- The bytes that were received and not removed.
abbrev pub pending : SocketMemory → Bytes
pending m = drop (m.read_index - base m.read_index m.buffs) (flat m.buffs)

pub Chain-length : (b e : ℕ) (xs : List MemBlock) → Chain b xs e → b + length (flat xs) ≡ e
unfolding flat
Chain-length b e [] c = omega arith
Chain-length b e (x ∷ xs) c =
    omega (arith, Chain-length (b + length x.bytes) e xs c.2, length-append x.bytes (flat xs))

pub emplace_at-Chain :
    (b e : ℕ) (xs : List MemBlock) (d : MemBlock) → Chain b xs e → d.begin ≡ e → emplace_at d xs ≡ d
unfolding emplace_at
emplace_at-Chain b e [] d c h = refl
emplace_at-Chain b e (x ∷ xs) d c h = ground (
  arith,
  Chain-length (b + length x.bytes) e xs c.2,
  emplace_at-Chain (b + length x.bytes) e xs d c.2 h,
)

pub emplace-Chain :
    (b e : ℕ) (xs : List MemBlock) (d : MemBlock)
    → Chain b xs e
    → d.begin ≡ e
    → emplace d xs ≡ xs ++ d ∷ []
unfolding emplace
emplace-Chain b e [] d c h = refl
emplace-Chain b e (x ∷ xs) d c h = ground (
  arith,
  Chain-length (b + length x.bytes) e xs c.2,
  emplace-Chain (b + length x.bytes) e xs d c.2 h,
)

pub Chain-concat :
    (b e : ℕ) (xs : List MemBlock) (d : MemBlock)
    → Chain b xs e
    → d.begin ≡ e
    → 0 < length d.bytes
    → Chain b (xs ++ d ∷ []) (e + length d.bytes)
Chain-concat b e [] d c h p = (omega arith, p, omega arith)
Chain-concat b e (x ∷ xs) d c h p = (c.0, c.1, Chain-concat (b + length x.bytes) e xs d c.2 h p)

pub flat-concat : (xs : List MemBlock) (d : MemBlock) → flat (xs ++ d ∷ []) ≡ flat xs ++ d.bytes
unfolding flat
flat-concat [] d = append-nil d.bytes
flat-concat (x ∷ xs) d =
    ap (◌++◌ x.bytes) (flat-concat xs d) ∙ sym (append_assoc x.bytes (flat xs) d.bytes)

-- What erasing the blocks before `r` does to a chain that reaches past `b`.
pub record Erased (b r e : ℕ) (xs ys : List MemBlock) : Type 0 where
  pub chain : Chain (base r ys) ys e
  pub starts : Starts r ys
  pub same : drop (r - base r ys) (flat ys) ≡ drop (r - b) (flat xs)
  pub size : erased_size r xs + length (flat ys) ≡ length (flat xs)

pub erase_read-Erased :
    (b r e : ℕ) (xs : List MemBlock)
    → Chain b xs e
    → b ≤ r
    → r ≤ e
    → Erased b r e xs (erase_read r xs)
unfolding erase_read erased_size flat
erase_read-Erased b r e [] c h k = record {
  chain = omega arith;
  starts = tt;
  same = drop-nil (r - r) ∙ sym (drop-nil (r - b));
  size = refl;
}
erase_read-Erased b r e (x ∷ xs) c h k = ground (
  arith,
  erase_read-Erased (b + length x.bytes) r e xs c.2,
  drop-append_ge (r - b) x.bytes (flat xs),
  length-append x.bytes (flat xs),
  ap (λ k. drop k (flat xs)) {x = r - b - length x.bytes} {y = r - (b + length x.bytes)}
      (omega arith),
)
