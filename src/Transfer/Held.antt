-- ===== src/Transfer/Held.antt =====
-- `transfer_mem` of src/hmemory.h where all the bytes are in the buffer already.
use hcpp.Common.{
  ℕ, suc, ◌≤◌, ◌<◌, ◌≡◌, sym, refl, true, false, inl, inr, some, arith, Bytes, length, take, ltb,
  Bool-cases, take-all, length-take, if◌then◌else◌,
}
use hcpp.Memory.{Memory, IsStream}
use hcpp.Transfer.{transfer_loop, transfer_mem}

cut :
    (total : ℕ) (s : Bytes)
    → total ≤ length s
    → (if ltb total (length s) then take total s else s) ≡ take total s
cut total s h = elim (Bool-cases (ltb total (length s))) [
  | inl more ↦ rw more refl
  | inr less ↦ rw less (sym (take-all total s (ground (arith, less))))
]

module _ (From To : Memory) (S : IsStream From) where
  open From use {Mem, remove_some, merge_some}
  open To use {Mem as Out, async_write_all}
  open S use {IsValid, IsAddressable, pending, merge}

  loop_ends :
      (fuel total : ℕ) (m : Mem) (t : Out)
      → transfer_loop From To (suc fuel) total total m t ≡ some (total, m, t)
  unfolding transfer_loop
  loop_ends fuel total m t = let stop : ltb total total ≡ false = ground arith in rw stop refl

  -- They are written in one piece and removed, and nothing is read.
  pub transfer_mem-held :
      (fuel total : ℕ) (m : Mem) (t : Out)
      → IsValid m
      → IsAddressable m
      → 0 < total
      → total ≤ length (pending m)
      → transfer_mem From To (suc fuel) total m t
        ≡ some (
          total,
          (remove_some total (merge_some m).1).1,
          async_write_all (take total (pending m)) t,
        )
  unfolding transfer_mem
  transfer_mem-held fuel total m t v a p h =
      let wanted : ltb 0 total ≡ true = ground arith in
      let buffered : ltb 0 (length (pending m)) ≡ true = ground arith in
      let n : length (take total (pending m)) ≡ total =
        ground (arith, length-take total (pending m)) in
      rw ((merge m v).3 a, wanted, buffered, cut total (pending m) h, n)
        (loop_ends fuel total (remove_some total (merge_some m).1).1
          (async_write_all (take total (pending m)) t))
