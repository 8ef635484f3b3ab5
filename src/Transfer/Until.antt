-- ===== src/Transfer/Until.antt =====
-- `transfer_mem_until` of src/hmemory.h: copy what is read up to a pattern. Sizes are kept modulo
-- 2 ^ 64, which the differences of the source need.
use hcpp.Common.{
  ℕ, zero, suc, ◌+◌, ◌-◌, ◌*◌, ◌%◌, ◌^◌, Option, none, some, Bytes, length, take, ltb, leb,
  if◌then◌else◌,
}
use hcpp.Memory.{Memory}
use hcpp.Kmp.{Kmp, kmp, search}

-- `a - b` on `std::size_t`
unfoldable pub minus : ℕ → ℕ → ℕ
minus a b = (a + 2 ^ 64 - b % 2 ^ 64) % 2 ^ 64

-- The default of `async_load_some`.
abbrev pub load_size : ℕ
load_size = 1024 * 4

module _ (From To : Memory) where
  open From use {Mem, async_load_some, async_load_until, get_some, remove_some, merge_some}
  open To use {Mem as Out, async_write_all}

  -- The loop that follows a text which ends inside the pattern, with fuel.
  unfoldable pub until_loop : ℕ → Kmp → Bytes → ℕ → ℕ → Mem → Out → Option (ℕ × Mem × Out)
  until_loop zero k som_str checked n m t = none
  until_loop (suc fuel) k som_str checked n m t =
      let checked_len = checked + length som_str in
      let t1 = async_write_all som_str t in
      let n1 = n + length som_str in
      let (str, m1) = async_load_some load_size (remove_some (length som_str) m).1 in
      elim (search str k) [
        | none ↦ none
        | some (p, k1) ↦
            let at = minus p checked_len in
            let again = until_loop fuel k1 str checked_len n1 m1 t1 in
            let last = take ((at + length k.pattern) % 2 ^ 64) str in
            if ltb (minus (length str) at) (length k.pattern)
            then again
            else some (n1 + length last, (remove_some (length last) m1).1, async_write_all last t1)
      ]

  unfoldable pub transfer_mem_until : ℕ → Bytes → Mem → Out → Option (ℕ × Mem × Out)
  transfer_mem_until fuel pattern m t =
      let m1 = (merge_some m).1 in
      let som_str = get_some m1 in
      let n = length som_str in
      let removed = (remove_some n m1).1 in
      let t1 = async_write_all som_str t in
      elim (kmp pattern) [
        | none ↦ none
        | some k ↦ elim (search som_str k) [
          | none ↦ none
          | some (p, k1) ↦
              let (line, m2) = async_load_until pattern removed in
              if leb (2 ^ 63) p
              then some (n + length line, (remove_some (length line) m2).1, async_write_all line t1)
              else if ltb (minus n p) (length pattern)
              then until_loop fuel k1 som_str 0 0 m1 t
              else some (n, removed, t1)
        ]
      ]
