-- ===== src/Transfer/Moved.antt =====
-- What the loop of `transfer_mem` of src/hmemory.h moves from one memory to another.
use hcpp.Common.{
  ℕ, zero, suc, ◌+◌, ◌-◌, ◌≤◌, ◌<◌, ◌≡◌, refl, sym, ap, ◌∙◌, false, inl, inr, List, [], ◌∷◌, ◌++◌,
  Option, some, arith, Bytes, length, take, drop, ltb, Bool-cases, length-append, take-append_ge,
  drop-append_ge, drop-all,
}
use mathlib.Core.List.{flatten}
use hcpp.Memory.{Memory, IsStream}
use hcpp.Transfer.{transfer_loop}

module _ (To : Memory) where
  open To use {Mem as Out, async_write_all}

  -- The pieces written one after another.
  unfoldable pub write_each : List Bytes → Out → Out
  write_each [] t = t
  write_each (c ∷ cs) t = write_each cs (async_write_all c t)

module _ (From To : Memory) (S : IsStream From) where
  open From use {Mem, async_load_some, get_some, remove_some, merge_some}
  open To use {Mem as Out, async_write_all}
  open S use {IsValid, IsAddressable, pending, coming, load, remove, merge}

  -- One read of the loop, and its removal: the memory has lost what was read.
  unfoldable pub after_load : ℕ → Mem → Mem
  after_load n m = let (str, m1) = async_load_some n m in (remove_some (length str) m1).1

  pub after_load_lem :
      (n : ℕ) (m : Mem)
      → IsValid m
      → 0 < n
      → pending m ≡ []
      → let str = (async_load_some n m).0 in
        IsValid (after_load n m)
        × (pending (after_load n m) ≡ [])
        × (coming m ≡ str ++ coming (after_load n m))
        × (length str ≤ n)
        × (str ≡ [] → coming m ≡ [])
  unfolding after_load
  after_load_lem n m v p e =
      let str : Bytes = (async_load_some n m).0 in
      let l = load n m v p in
      let held : pending (async_load_some n m).1 ≡ str = l.2 ∙ rw e in
      let r = remove (length str) (async_load_some n m).1 l.0 (omega (arith, ap length held)) in
      (
        r.0,
        r.1
            ∙ drop-all (length str) (pending (async_load_some n m).1)
                (omega (arith, ap length held)),
        l.3 ∙ ap (◌++◌ str) (sym r.2),
        l.1,
        l.4,
      )

  -- From a stream `all`, the first `k` bytes went to `t`, piece by piece; `rest` holds the others.
  pub record Moved (total k : ℕ) (all : Bytes) (t : Out) (r : Option (ℕ × Mem × Out)) : Type 0 where
    pub rest : Mem
    pub pieces : List Bytes
    pub returns : r ≡ some (total, rest, write_each To pieces t)
    pub moved : flatten pieces ≡ take k all
    pub left : pending rest ++ coming rest ≡ drop k all
    pub valid : IsValid rest

  -- A first piece in front of what the rest of the loop moves.
  pub Moved-cons :
      {total : ℕ} {t : Out} {r : Option (ℕ × Mem × Out)} (k n : ℕ) (str all : Bytes)
      → length str ≡ n
      → n ≤ k
      → Moved total (k - n) all (async_write_all str t) r
      → Moved total k (str ++ all) t r
  unfolding write_each flatten
  Moved-cons k n str all e h w = record {
    rest = w.rest;
    pieces = str ∷ w.pieces;
    returns = w.returns;
    moved =
        ap (◌++◌ str) (w.moved ∙ ap (λ i. take i all) {x = k - n} (omega arith))
        ∙ sym (take-append_ge k str all (omega arith));
    left =
        w.left
        ∙ ap (λ i. drop i all) {x = k - n} {y = k - length str} (omega arith)
        ∙ sym (drop-append_ge k str all (omega arith));
    valid = w.valid;
  }

  pub transfer_loop-Moved :
      (fuel total nx k : ℕ) (m : Mem) (t : Out)
      → IsValid m
      → pending m ≡ []
      → nx + k ≡ total
      → k ≤ length (coming m)
      → k < fuel
      → Moved total k (coming m) t (transfer_loop From To fuel total nx m t)
  unfolding transfer_loop after_load write_each flatten
  transfer_loop-Moved zero total nx k m t v p h le f = absurd (omega arith)
  transfer_loop-Moved (suc fuel) total nx k m t v p h le f = elim (Bool-cases (ltb nx total)) [
    | inr done ↦
        let none_left : k ≡ 0 = ground arith in
        rw (done, none_left)
          (record {
            rest = m;
            pieces = [];
            returns = ap (λ n. some (n, m, t)) {x = nx} (omega arith);
            moved = refl;
            left = rw p;
            valid = v;
          })
    | inl more ↦
        let str : Bytes = (async_load_some (total - nx) m).0 in
        let l = after_load_lem (total - nx) m v (ground arith) p in
        let some_byte : 0 < length str = ground (arith, λ (e : str ≡ []). ap length (l.4 e)) in
        rw (more, l.2)
          (Moved-cons k (length str) str (coming (after_load (total - nx) m)) refl (omega arith) (
            transfer_loop-Moved fuel total (nx + length str) (k - length str) _
              (async_write_all str t) l.0 l.1 (omega arith)
              (omega (arith, ap length l.2, length-append str (coming (after_load (total - nx) m))))
              (omega arith)))
  ]

  -- Nothing is left to copy: the loop ends at once.
  pub transfer_loop-done :
      (fuel total k : ℕ) (m : Mem) (t : Out) (all : Bytes)
      → IsValid m
      → 0 < fuel
      → k ≡ 0
      → pending m ++ coming m ≡ all
      → Moved total k all t (transfer_loop From To fuel total total m t)
  unfolding transfer_loop write_each flatten
  transfer_loop-done zero total k m t all v f z e = absurd (omega arith)
  transfer_loop-done (suc fuel) total k m t all v f z e =
      let stop : ltb total total ≡ false = ground arith in
      rw (stop, z)
        (record { rest = m; pieces = []; returns = refl; moved = refl; left = e; valid = v })
