-- ===== src/Buffer/Shown.antt =====
-- `get_some` of src/http/socket_wrap.cpp after a `merge_some` and removals.
use hcpp.Common.{
  ℕ, ◌+◌, ◌^◌, ◌≤◌, ◌<◌, Bool, true, false, List, [], ◌∷◌, ◌≡◌, refl, ap, sym, ◌∙◌, arith, length,
  drop, if◌then◌else◌, ltb,
}
use hcpp.Buffer.{MemBlock, SocketMemory, get_some, merge_some, remove_some, erase_read, block_end}
use hcpp.Buffer.Chain.{IsValid, pending}
use hcpp.Buffer.Reads.{merge_some-pending, remove_some-pending}

-- At most one block.
abbrev IsShort : List MemBlock → Type 0
IsShort [] = Unit {0}
IsShort (x ∷ []) = Unit {0}
IsShort (x ∷ y ∷ ys) = ⊥

merge_some-IsShort :
    (m : SocketMemory) (xs : List MemBlock) → IsShort (merge_some (record m { buffs = xs })).1.buffs
unfolding merge_some
merge_some-IsShort m [] = tt
merge_some-IsShort m (x ∷ []) = tt
merge_some-IsShort m (x ∷ y ∷ ys) = tt

IsShort-if : (b : Bool) (x : MemBlock) → IsShort (if b then x ∷ [] else [])
IsShort-if true x = tt
IsShort-if false x = tt

erase_read-IsShort : (r : ℕ) (xs : List MemBlock) → IsShort xs → IsShort (erase_read r xs)
unfolding erase_read
erase_read-IsShort r [] s = tt
erase_read-IsShort r (x ∷ []) s = IsShort-if (ltb r (block_end x)) x
erase_read-IsShort r (x ∷ y ∷ ys) s = absurd s

merge_some-short :
    (m : SocketMemory) (xs : List MemBlock)
    → IsShort xs
    → (merge_some (record m { buffs = xs })).1 ≡ record m { buffs = xs }
unfolding merge_some
merge_some-short m [] s = refl
merge_some-short m (x ∷ []) s = refl
merge_some-short m (x ∷ y ∷ ys) s = absurd s

merge_index :
    (m : SocketMemory) (xs : List MemBlock)
    → (merge_some (record m { buffs = xs })).1.read_index ≡ m.read_index
unfolding merge_some
merge_index m [] = refl
merge_index m (x ∷ []) = refl
merge_index m (x ∷ y ∷ ys) = refl

pub read_index-merge_some : (m : SocketMemory) → (merge_some m).1.read_index ≡ m.read_index
read_index-merge_some m = merge_index m m.buffs

pub read_index-remove_some :
    (m : SocketMemory) (n : ℕ) → (remove_some n m).1.read_index ≡ m.read_index + n
unfolding remove_some
read_index-remove_some m n = refl

-- After a merge, what is left behind the removed bytes is shown whole.
pub remove_some-shown :
    (m : SocketMemory) (n : ℕ)
    → IsValid m
    → n ≤ length (pending m)
    → m.read_index + n < 2 ^ 31
    → get_some (remove_some n (merge_some m).1).1 ≡ drop n (pending m)
unfolding remove_some
remove_some-shown m n v h small =
    let mg = merge_some-pending m v in
    let m1 = (merge_some m).1 in
    let rm = remove_some-pending m1 n mg.3 (omega (arith, ap length mg.0)) in
    let m2 = (remove_some n m1).1 in
    let kept =
      merge_some-short m2 m2.buffs
        (erase_read-IsShort (m1.read_index + n) m1.buffs (merge_some-IsShort m m.buffs)) in
    let again = merge_some-pending m2 rm.3 in
    ap get_some (sym kept) ∙ again.1 (omega (arith, again.2, rm.1, mg.2)) ∙ rm.0 ∙ ap (drop n) mg.0
