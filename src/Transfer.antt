-- ===== src/Transfer.antt =====
-- `transfer_mem` of src/hmemory.h: copy a number of bytes from one memory to another.
pub mod Moved
pub mod Exact
pub mod Until
pub mod Found
pub mod Held
use hcpp.Common.{
  ℕ, zero, suc, ◌+◌, ◌-◌, List, [], ◌∷◌, Option, none, some, Bytes, length, take, ltb,
  if◌then◌else◌,
}
use hcpp.Memory.{Memory}

module _ (From To : Memory) where
  open From use {Mem, async_load_some, get_some, remove_some, merge_some}
  open To use {Mem as Out, async_write_all}

  -- The `while` loop, with fuel; `none` means that it was still running when the fuel ran out.
  pub transfer_loop : ℕ → ℕ → ℕ → Mem → Out → Option (ℕ × Mem × Out)
  transfer_loop zero total nx m t = none
  transfer_loop (suc fuel) total nx m t =
      let (str, m1) = async_load_some (total - nx) m in
      let again =
        transfer_loop fuel total (nx + length str) (remove_some (length str) m1).1
          (async_write_all str t) in
      if ltb nx total then again else some (nx, m, t)

  -- The buffered bytes first, and no more of them than are asked for.
  pub transfer_mem : ℕ → ℕ → Mem → Out → Option (ℕ × Mem × Out)
  unfolding transfer_loop
  transfer_mem fuel total m t =
      let m1 = (merge_some m).1 in
      let buffered = get_some m1 in
      let som_str = if ltb total (length buffered) then take total buffered else buffered in
      let n = length som_str in
      if ltb 0 total
      then (if ltb 0 (length buffered)
          then transfer_loop fuel total n (remove_some n m1).1 (async_write_all som_str t)
          else transfer_loop fuel total 0 m1 t)
      else transfer_loop fuel total 0 m1 t
