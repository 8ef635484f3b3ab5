-- ===== src/Buffer/Reads.antt =====
-- Reading out of the buffer: `get_some`, `remove_some`, `merge_some`, and reads up to a delimiter.
use hcpp.Common.{
  ℕ, ◌+◌, ◌-◌, ◌^◌, ◌≤◌, ◌<◌, false, List, [], ◌∷◌, ◌++◌, ◌≡◌, refl, ap, sym, ◌∙◌, arith, Bytes,
  length, take, drop, length-append, length-drop, drop-append_le, drop-drop, drop-nil, append-nil,
  ◌==◌,
}
use hcpp.Buffer.{
  MemBlock, SocketMemory, async_load_until, get_some, block_end, remove_some, merge_some, flat,
  as_int,
}
use hcpp.Buffer.Chain.{
  Chain, base, Starts, IsValid, pending, Chain-length, emplace_at-Chain, erase_read-Erased,
}
use hcpp.Buffer.Stream.{length-pending, base_le, block_of, received-IsValid, pending-received}

-- On a valid buffer, a read up to a delimiter that ends after `n` of the bytes read, `n` above 0,
-- returns the first `n`, puts all bytes read behind the pending ones, and leaves a valid buffer.
pub async_load_until-pending :
    (m : SocketMemory) (n : ℕ) (d : Bytes)
    → IsValid m
    → 0 < n
    → n ≤ length d
    → let t = async_load_until (record { matched = n; buffered = d }) m in
      (t.0 ≡ take n d)
      × (pending t.1 ≡ pending m ++ d)
      × (t.1.write_index ≡ m.write_index + length d)
      × IsValid t.1
unfolding async_load_until
async_load_until-pending m n d v p h =
    let e : (n == 0) ≡ false = ground arith in
    rw e (
      ap (λ b. take n b.bytes)
          (emplace_at-Chain _ m.write_index m.buffs (block_of m.write_index d) v.chain refl),
      pending-received m d v (omega arith),
      refl,
      received-IsValid m d v (omega arith),
    )

-- On a valid buffer, removing at most as many bytes as are pending takes that many off the front
-- of the queue, moves the read index by their number, returns the size of the blocks that were
-- erased, and leaves a valid buffer.
pub remove_some-pending :
    (m : SocketMemory) (n : ℕ)
    → IsValid m
    → n ≤ length (pending m)
    → let t = remove_some n m in
      (pending t.1 ≡ drop n (pending m))
      × (t.1.read_index ≡ m.read_index + n)
      × (t.0 + length (flat t.1.buffs) ≡ length (flat m.buffs))
      × IsValid t.1
unfolding remove_some
remove_some-pending m n v h =
    let counted = length-pending m v in
    let b = base m.read_index m.buffs in
    let le = base_le m.read_index m.buffs v.starts in
    let er =
      erase_read-Erased b (m.read_index + n) m.write_index m.buffs v.chain (omega arith)
        (omega arith) in
    (
      er.same
          ∙ ap (λ k. drop k (flat m.buffs)) {x = m.read_index + n - b} {y = m.read_index - b + n}
              (omega arith)
          ∙ sym (drop-drop n (m.read_index - b) (flat m.buffs)),
      refl,
      er.size,
      record { chain = er.chain; starts = er.starts },
    )

-- `as_int` is the identity on the indices below 2 ^ 31.
pub as_int_small : (k : ℕ) → k < 2 ^ 31 → as_int k ≡ k
unfolding as_int
as_int_small k h = ground arith

-- What is left of the first block.
front : ℕ → List MemBlock → Bytes
front r [] = []
front r (x ∷ xs) = drop (r - x.begin) x.bytes

get_some-front :
    (m : SocketMemory) (xs : List MemBlock)
    → Starts m.read_index xs
    → m.read_index < 2 ^ 31
    → get_some (record m { buffs = xs }) ≡ front m.read_index xs
unfolding get_some front block_end
get_some-front m [] s h = refl
get_some-front m (x ∷ xs) s h = ground arith

pending-front :
    (r e : ℕ) (xs : List MemBlock)
    → Chain (base r xs) xs e
    → Starts r xs
    → (rest : Bytes) × (drop (r - base r xs) (flat xs) ≡ front r xs ++ rest)
      × (front r xs ≡ [] → drop (r - base r xs) (flat xs) ≡ [])
unfolding front flat
pending-front r e [] c s = ([], drop-nil (r - r), λ _. drop-nil (r - r))
pending-front r e (x ∷ xs) c s = (
  flat xs,
  drop-append_le (r - x.begin) x.bytes (flat xs) (omega arith),
  λ h. absurd (omega (arith, ap length h, length-drop (r - x.begin) x.bytes)),
)

-- On a valid buffer whose read index is below 2 ^ 31, `get_some` shows a prefix of the pending
-- bytes, and shows nothing only if nothing is pending.
pub get_some-pending :
    (m : SocketMemory)
    → IsValid m
    → m.read_index < 2 ^ 31
    → (rest : Bytes) × (pending m ≡ get_some m ++ rest) × (get_some m ≡ [] → pending m ≡ [])
get_some-pending m v h =
    rw (get_some-front m m.buffs v.starts h)
      (pending-front m.read_index m.write_index m.buffs v.chain v.starts)

merge_of :
    (m : SocketMemory) (xs : List MemBlock)
    → IsValid (record m { buffs = xs })
    → let u = record m { buffs = xs } in
      let t = merge_some u in
      (pending t.1 ≡ pending u)
      × (t.1.read_index < 2 ^ 31 → get_some t.1 ≡ pending u)
      × (t.1.read_index ≡ m.read_index)
      × IsValid t.1
unfolding merge_some front
merge_of m [] v = (
  refl,
  λ h. get_some-front m [] tt h ∙ sym (unfold flat in drop-nil (m.read_index - m.read_index)),
  refl,
  v,
)
merge_of m (x ∷ []) v = (
  refl,
  λ h.
      get_some-front m (x ∷ []) v.starts h
      ∙ ap (drop (m.read_index - x.begin)) (unfold flat in sym (append-nil x.bytes)),
  refl,
  v,
)
merge_of m (x ∷ y ∷ ys) v =
    let merged : MemBlock = record { begin = x.begin; bytes = flat (x ∷ y ∷ ys) } in
    let size = Chain-length x.begin m.write_index (x ∷ y ∷ ys) v.chain in
    let longer : length x.bytes ≤ length (flat (x ∷ y ∷ ys)) =
      unfold flat in omega (arith, length-append x.bytes (y.bytes ++ flat ys)) in
    let s : Starts m.read_index (merged ∷ []) = (v.starts.0, omega arith) in
    (
      ap (drop (m.read_index - x.begin)) (unfold flat in append-nil (flat (x ∷ y ∷ ys))),
      λ h. get_some-front m (merged ∷ []) s h,
      refl,
      record { chain = (refl, omega arith, size); starts = s },
    )

-- On a valid buffer, merging keeps the queue, the read index and the validity, and afterwards,
-- while the read index is below 2 ^ 31, `get_some` shows the whole queue.
pub merge_some-pending :
    (m : SocketMemory)
    → IsValid m
    → let t = merge_some m in
      (pending t.1 ≡ pending m)
      × (t.1.read_index < 2 ^ 31 → get_some t.1 ≡ pending m)
      × (t.1.read_index ≡ m.read_index)
      × IsValid t.1
merge_some-pending m v = merge_of m m.buffs v
