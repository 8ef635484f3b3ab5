-- ===== src/Transfer/Found.antt =====
-- The copy up to two line ends, where these are already in the buffer.
use hcpp.Common.{
  ℕ, ◌+◌, ◌^◌, ◌≤◌, ◌<◌, [], Option, none, some, Bytes, length, drop, ltb, leb, ◌≡◌, refl, ap,
  subst, ◌∙◌, arith, find, false, find-room, drop-all,
}
use hcpp.Memory.{Memory, IsStream}
use hcpp.Kmp.{Kmp, search}
use hcpp.Kmp.Places.{line_ends, start, kmp-line_ends}
use hcpp.Kmp.Search.{Answers, search-find}
use hcpp.Transfer.Until.{minus, transfer_mem_until}

found_at :
    (text : Bytes) (p : ℕ) (r : Option (ℕ × Kmp))
    → Answers text (some p) r
    → (k : Kmp) × (r ≡ some (p, k))
found_at text p none a = absurd a
found_at text p (some (q, k)) a = (k, ap (λ n. some (n, k)) a.0)

room_behind : (n p : ℕ) → n < 2 ^ 31 → p + 4 ≤ n → ltb (minus n p) 4 ≡ false
unfolding minus
room_behind n p s h = ground arith

module _ (From To : Memory) (S : IsStream From) where
  open From use {Mem, async_load_some, async_load_until, get_some, remove_some, merge_some}
  open To use {Mem as Out, async_write_all}
  open S use {IsValid, IsAddressable, pending, coming, merge, remove}

  -- All that was buffered was written and removed, and nothing else was read.
  pub record Flushed (m : Mem) (t : Out) (r : Option (ℕ × Mem × Out)) : Type 0 where
    pub left : Mem
    pub result : r ≡ some (length (pending m), left, async_write_all (pending m) t)
    pub empty : pending left ≡ []
    pub same : coming left ≡ coming m
    pub valid : IsValid left

  round :
      (fuel q : ℕ) (m : Mem) (t : Out) (text : Bytes) (k : Kmp)
      → get_some (merge_some m).1 ≡ text
      → search text start ≡ some (q, k)
      → leb (2 ^ 63) q ≡ false
      → ltb (minus (length text) q) 4 ≡ false
      → transfer_mem_until From To fuel line_ends m t
        ≡ some (length text, (remove_some (length text) (merge_some m).1).1, async_write_all text t)
  unfolding transfer_mem_until
  round fuel q m t text k a b c d = rw (transfer_mem_until, kmp-line_ends, a, b, c, a, d) refl

  -- If the buffer of a valid and addressable stream has two line ends in it and less than 2 ^ 31
  -- bytes, then the copy up to two line ends returns for every fuel: all that was buffered is
  -- written and removed, what stands behind the line ends too, and nothing else is read.
  pub transfer_mem_until-found :
      (fuel p : ℕ) (m : Mem) (t : Out)
      → IsValid m
      → IsAddressable m
      → length (pending m) < 2 ^ 31
      → find (pending m) line_ends ≡ some p
      → Flushed m t (transfer_mem_until From To fuel line_ends m t)
  transfer_mem_until-found fuel p m t v a short e =
      let merged = merge m v in
      let m1 = (merge_some m).1 in
      let whole : get_some m1 ≡ pending m = merged.3 a in
      let text = pending m in
      let (k, at) =
        found_at text p (search text start)
          (subst (λ o. Answers text o (search text start)) e (search-find text short)) in
      let room = find-room text line_ends p e in
      let small : leb (2 ^ 63) p ≡ false = ground (arith, room, short) in
      let removed = remove (length text) m1 merged.0 (omega (arith, ap length merged.1)) in
      record {
        left = (remove_some (length text) m1).1;
        result = round fuel p m t text k whole at small (room_behind (length text) p short room);
        empty =
            removed.1
            ∙ ap (drop (length text)) merged.1
            ∙ drop-all (length text) text (omega arith);
        same = removed.2 ∙ merged.2;
        valid = removed.0;
      }
