-- ===== src/Transfer/Exact.antt =====
-- What `transfer_mem` of src/hmemory.h moves from one memory to another.
use hcpp.Common.{
  ℕ, zero, suc, ◌+◌, ◌-◌, ◌≤◌, ◌<◌, ◌≡◌, refl, sym, ap, ap₂, subst, ◌∙◌, true, false, inl, inr, [],
  ◌++◌, none, arith, Bytes, length, take, drop, ltb, Bool-cases, length-append, append_assoc,
  length-take, drop-all, take-append-drop, if◌then◌else◌,
}
use hcpp.Memory.{Memory, IsStream}
use hcpp.Transfer.{transfer_loop, transfer_mem}
use hcpp.Transfer.Moved.{
  after_load, after_load_lem, Moved, Moved-cons, transfer_loop-Moved, transfer_loop-done,
}

module _ (From To : Memory) (S : IsStream From) where
  open From use {Mem, async_load_some, get_some, remove_some, merge_some}
  open To use {Mem as Out, async_write_all}
  open S use {IsValid, IsAddressable, pending, coming, load, remove, merge}

  from_buffer :
      (fuel total : ℕ) (m : Mem) (t : Out)
      → IsValid m
      → total ≤ length (pending m ++ coming m)
      → total < fuel
      → 0 < length (pending m)
      → let m1 = (merge_some m).1 in
        let str = if ltb total (length (pending m)) then take total (pending m) else pending m in
        Moved From To S total total (pending m ++ coming m) t (
          transfer_loop From To fuel total
            (length str)
            (remove_some (length str) m1).1
            (async_write_all str t))
  from_buffer fuel total m t v le f p =
      let mg = merge m v in
      elim (Bool-cases (ltb total (length (pending m)))) [
        | inl more ↦
            let n : length (take total (pending m)) ≡ total =
              ground (arith, length-take total (pending m)) in
            let rm = remove total (merge_some m).1 mg.0 (ground (arith, ap length mg.1)) in
            rw (more, n)
              (subst
                (λ s. Moved From To S total total s t (
                  transfer_loop From To fuel total total (remove_some total (merge_some m).1).1
                    (async_write_all (take total (pending m)) t)))
                (sym (append_assoc (take total (pending m)) (drop total (pending m)) (coming m))
                  ∙ ap (λ s. s ++ coming m) (take-append-drop total (pending m)))
                (Moved-cons From To S total total (take total (pending m))
                  (drop total (pending m) ++ coming m) n (omega arith)
                  (transfer_loop-done From To S fuel total (total - total) _ _ _ rm.0 (omega arith)
                    (omega arith) (ap₂ ◌++◌ (rm.1 ∙ ap (drop total) mg.1) (rm.2 ∙ mg.2)))))
        | inr less ↦
            let rm =
              remove (length (pending m)) (merge_some m).1 mg.0 (omega (arith, ap length mg.1)) in
            rw less (
              Moved-cons From To S total (length (pending m)) (pending m) (coming m) refl
                (ground arith)
                (subst
                  (λ s.
                    Moved From To S total (total - length (pending m)) s
                      (async_write_all (pending m) t)
                      (transfer_loop From To fuel total (length (pending m))
                        (remove_some (length (pending m)) (merge_some m).1).1
                        (async_write_all (pending m) t)))
                  (rm.2 ∙ mg.2)
                  (transfer_loop-Moved From To S fuel total (length (pending m))
                    (total - length (pending m)) _ (async_write_all (pending m) t) rm.0
                    (rm.1
                      ∙ drop-all (length (pending m)) (pending (merge_some m).1)
                          (omega (arith, ap length mg.1)))
                    (ground arith)
                    (omega (arith, ap length (rm.2 ∙ mg.2), length-append (pending m) (coming m)))
                    (omega arith))))
      ]

  -- For every source that is a stream in the sense of `IsStream`, valid and addressable: if at
  -- least `total` bytes are buffered or still to come, then with fuel above `total` the copy
  -- returns `total`, it has written exactly the first `total` bytes in order, the bytes that
  -- follow are left in the source, and the source is valid.
  pub transfer_mem-exact :
      (fuel total : ℕ) (m : Mem) (t : Out)
      → IsValid m
      → IsAddressable m
      → total ≤ length (pending m ++ coming m)
      → total < fuel
      → Moved From To S total total (pending m ++ coming m) t (transfer_mem From To fuel total m t)
  unfolding transfer_mem
  transfer_mem-exact fuel total m t v a le f =
      let mg = merge m v in
      let held = length-append (pending m) (coming m) in
      rw (mg.3 a) (elim (Bool-cases (ltb 0 total)) [
        | inr none_wanted ↦
            let z : total ≡ 0 = ground arith in
            rw none_wanted (
              subst
                (λ n.
                  Moved From To S total total (pending m ++ coming m) t
                    (transfer_loop From To fuel total n (merge_some m).1 t))
                z
                (transfer_loop-done From To S fuel total total (merge_some m).1 t _ mg.0
                  (omega arith) z (ap₂ ◌++◌ mg.1 mg.2)))
        | inl wanted ↦ elim (Bool-cases (ltb 0 (length (pending m)))) [
          | inr empty ↦
              let e : pending m ≡ [] = ground arith in
              rw (wanted, empty, e, ← mg.2)
                (transfer_loop-Moved From To S fuel total 0 total (merge_some m).1 t mg.0 (mg.1 ∙ e)
                  (omega arith) (omega (arith, ap length e, ap length mg.2)) f)
          | inl buffered ↦ rw (wanted, buffered) (from_buffer fuel total m t v le f (ground arith))
        ]
      ])

  -- Fewer bytes than that: the loop reads for ever. A failed read does not stop it.
  transfer_loop-stuck :
      (fuel total nx : ℕ) (m : Mem) (t : Out)
      → IsValid m
      → pending m ≡ []
      → nx + length (coming m) < total
      → transfer_loop From To fuel total nx m t ≡ none
  unfolding transfer_loop after_load
  transfer_loop-stuck zero total nx m t v p h = refl
  transfer_loop-stuck (suc fuel) total nx m t v p h =
      let more : ltb nx total ≡ true = ground arith in
      let str : Bytes = (async_load_some (total - nx) m).0 in
      let l = after_load_lem From To S (total - nx) m v (omega arith) p in
      rw more (
        transfer_loop-stuck fuel total (nx + length str) _ (async_write_all str t) l.0 l.1 (
          omega (
            arith,
            ap length l.2,
            length-append str (coming (after_load From To S (total - nx) m)),
          )))

  -- If a valid and addressable source has fewer than `total` bytes, buffered and to come together,
  -- then the copy never returns: whatever the fuel, it is still running when the fuel ends.
  pub transfer_mem-never_returns :
      (fuel total : ℕ) (m : Mem) (t : Out)
      → IsValid m
      → IsAddressable m
      → length (pending m ++ coming m) < total
      → transfer_mem From To fuel total m t ≡ none
  unfolding transfer_mem
  transfer_mem-never_returns fuel total m t v a h =
      let mg = merge m v in
      let held = length-append (pending m) (coming m) in
      let wanted : ltb 0 total ≡ true = ground arith in
      let less : ltb total (length (pending m)) ≡ false = ground arith in
      let rm = remove (length (pending m)) (merge_some m).1 mg.0 (omega (arith, ap length mg.1)) in
      rw (mg.3 a, wanted, less)
        (elim (Bool-cases (ltb 0 (length (pending m)))) [
          | inr empty ↦
              let e : pending m ≡ [] = ground arith in
              rw empty (
                transfer_loop-stuck fuel total 0 (merge_some m).1 t mg.0 (mg.1 ∙ e)
                  (omega (arith, ap length mg.2)))
          | inl buffered ↦ rw buffered (
              transfer_loop-stuck fuel total (length (pending m)) _ (async_write_all (pending m) t)
                rm.0
                (rm.1
                  ∙ drop-all (length (pending m)) (pending (merge_some m).1)
                      (omega (arith, ap length mg.1)))
                (omega (arith, ap length (rm.2 ∙ mg.2))))
        ])
