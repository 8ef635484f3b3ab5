-- ===== src/Http/Chunks/Copied.antt =====
-- What `http_msg::transfer_chunk` of src/http/httpmsg.cpp passes on of a body in the buffer.
use hcpp.Common.{
  ℕ, zero, suc, ◌+◌, ◌^◌, ◌<◌, ◌≡◌, ap, sym, ◌∙◌, subst, List, [], ◌∷◌, ◌++◌, some, Bytes, length,
  take, drop, find, arith, take-front, drop-front, length-append, append_assoc, append-nil,
}
use mathlib.Core.List.{flatten}
use hcpp.Memory.{Memory, IsStream, IsShown}
use hcpp.Kmp.Places.{line_ends}
use hcpp.Transfer.Moved.{write_each}
use hcpp.Transfer.Held.{transfer_mem-held}
use hcpp.Transfer.Found.{transfer_mem_until-found}
use hcpp.Http.Chunks.{hex_str_to, Sent, sent, chunk_loop, transfer_chunk}
use hcpp.Http.Chunks.Held.{
  Chunk, IsLine, AreChunks, end_line, on_wire, chunk_loop-more, chunk_loop-last,
}

-- One chunk on the wire.
piece_of : Chunk → Bytes
piece_of c = c.line ++ end_line (c.content ++ end_line [])

on_wire-piece_of :
    (c : Chunk) (cs : List Chunk) (behind : Bytes)
    → on_wire (c ∷ cs) behind ≡ piece_of c ++ on_wire cs behind
unfolding piece_of
on_wire-piece_of c cs behind =
    ap (λ s. c.line ++ end_line s) (sym (append_assoc c.content (end_line []) (on_wire cs behind)))
    ∙ sym (append_assoc c.line (end_line (c.content ++ end_line [])) (on_wire cs behind))

length-piece_of : (c : Chunk) → length (piece_of c) ≡ length c.line + 2 + length c.content + 2
unfolding piece_of
length-piece_of c = omega (
  arith,
  length-append c.line (end_line (c.content ++ end_line [])),
  length-append c.content (end_line []),
)

module _ (From To : Memory) (S : IsStream From) where
  open From use {Mem, get_some}
  open To use {Mem as Out, async_write_all}
  open S use {IsValid, IsAddressable, pending, coming}

  -- All that is pending was written, piece by piece, removed and counted behind `n`, and nothing
  -- was read.
  pub record Copied (n : ℕ) (m : Mem) (t : Out) (r : Sent From To) : Type 0 where
    pub left : Mem
    pub pieces : List Bytes
    pub result : r ≡ sent (n + length (pending m)) left (write_each To pieces t)
    pub whole : flatten pieces ≡ pending m
    pub empty : pending left ≡ []
    pub same : coming left ≡ coming m
    pub valid : IsValid left

  Copied-cons :
      (n : ℕ) (m m2 : Mem) (t : Out) (r : Sent From To) (piece : Bytes)
      → pending m ≡ piece ++ pending m2
      → coming m2 ≡ coming m
      → Copied (n + length piece) m2 (async_write_all piece t) r
      → Copied n m t r
  unfolding write_each flatten
  Copied-cons n m m2 t r piece e f w = record {
    left = w.left;
    pieces = piece ∷ w.pieces;
    result =
        w.result
        ∙ ap (λ k. sent k w.left (write_each To w.pieces (async_write_all piece t)))
            {x = n + length piece + length (pending m2)}
            (omega (arith, ap length e, length-append piece (pending m2)));
    whole = ap (◌++◌ piece) w.whole ∙ sym e;
    empty = w.empty;
    same = w.same ∙ f;
    valid = w.valid;
  }

  Copied-last :
      (fuel n p : ℕ) (m : Mem) (t : Out) (l behind : Bytes)
      → IsValid m
      → IsAddressable m
      → length (pending m) < 2 ^ 31
      → get_some m ≡ pending m
      → pending m ≡ l ++ end_line behind
      → IsLine l
      → hex_str_to l ≡ some 0
      → find (l ++ end_line behind) line_ends ≡ some p
      → Copied n m t (chunk_loop From To (suc (suc fuel)) n m t)
  unfolding write_each flatten
  Copied-last fuel n p m t l behind v a small shown e h size at =
      let f =
        transfer_mem_until-found From To S (suc fuel) p m t v a small
          (ap (λ s. find s line_ends) e ∙ at) in
      record {
        left = f.left;
        pieces = pending m ∷ [];
        result =
            chunk_loop-last From To fuel n (length (pending m)) m f.left t _ l behind (shown ∙ e) h
              size f.result;
        whole = append-nil (pending m);
        empty = f.empty;
        same = f.same;
        valid = f.valid;
      }

  Copied-merged :
      (m m1 : Mem) (t : Out) (r : Sent From To)
      → pending m1 ≡ pending m
      → coming m1 ≡ coming m
      → Copied 0 m1 t r
      → Copied 0 m t r
  Copied-merged m m1 t r e f w = record {
    left = w.left;
    pieces = w.pieces;
    result = w.result ∙ ap (λ s. sent (0 + length s) w.left (write_each To w.pieces t)) e;
    whole = w.whole ∙ e;
    empty = w.empty;
    same = w.same ∙ f;
    valid = w.valid;
  }

module _ (From To : Memory) (S : IsStream From) (W : IsShown From S) where
  open From use {Mem, get_some, remove_some, merge_some}
  open To use {Mem as Out, async_write_all}
  open S use {IsValid, pending, merge, remove}
  open W use {HasRoom, room-addressable, room-remove, room-merge, shows}

  chunk_loop-Copied :
      (fuel n p : ℕ) (cs : List Chunk) (m : Mem) (t : Out) (l behind : Bytes)
      → IsValid m
      → HasRoom (length (pending m)) m
      → length (pending m) < 2 ^ 31
      → get_some m ≡ pending m
      → pending m ≡ on_wire cs (l ++ end_line behind)
      → AreChunks cs
      → IsLine l
      → hex_str_to l ≡ some 0
      → find (l ++ end_line behind) line_ends ≡ some p
      → length cs + 1 < fuel
      → Copied From To S n m t (chunk_loop From To fuel n m t)
  chunk_loop-Copied zero n p cs m t l behind v room small shown e all h size at enough =
      absurd (omega arith)
  chunk_loop-Copied (suc zero) n p cs m t l behind v room small shown e all h size at enough =
      absurd (omega arith)
  chunk_loop-Copied (suc (suc fuel)) n p [] m t l behind v room small shown e all h size at enough =
      Copied-last From To S fuel n p m t l behind v (room-addressable _ m room) small shown e h size
        at
  chunk_loop-Copied (suc (suc fuel)) n p (c ∷ cs) m t l behind v room small shown e all h size at
        enough =
      let piece = piece_of c in
      let rest = on_wire cs (l ++ end_line behind) in
      let cut : pending m ≡ piece ++ rest = e ∙ on_wire-piece_of c cs (l ++ end_line behind) in
      let counted = length-append piece rest in
      let long = length-piece_of c in
      let mg = merge m v in
      let rm =
        remove (length piece) (merge_some m).1 mg.0
          (omega (arith, ap length mg.1, ap length cut)) in
      let m2 = (remove_some (length piece) (merge_some m).1).1 in
      let behind_it : drop (length piece) (pending m) ≡ rest =
        ap (drop (length piece)) cut ∙ drop-front piece rest in
      let rested : pending m2 ≡ rest = rm.1 ∙ ap (drop (length piece)) mg.1 ∙ behind_it in
      let room2 : HasRoom (length piece + length rest) m =
        subst (λ k. HasRoom k m) (ap length cut ∙ counted) room in
      let front : take (length piece) (pending m) ≡ piece =
        ap (take (length piece)) cut ∙ take-front piece rest in
      subst (Copied From To S n m t)
        (sym (
          chunk_loop-more From To fuel n (length c.content) (length piece) m m2 t
            (async_write_all piece t) c.line (c.content ++ end_line rest) (shown ∙ e) all.0.0
            all.0.2 all.0.1 (omega (arith, ap length cut))
            (transfer_mem-held From To S fuel (length piece) m t v (room-addressable _ m room)
                (omega arith) (omega (arith, ap length cut))
              ∙ ap (λ s. some (length piece, m2, async_write_all s t)) front)))
        (Copied-cons From To S n m m2 t _ piece (cut ∙ ap (◌++◌ piece) (sym rested)) (rm.2 ∙ mg.2) (
          chunk_loop-Copied (suc fuel) (n + length piece) p cs m2 (async_write_all piece t) l behind
            rm.0
            (subst (λ k. HasRoom k m2) (ap length (sym rested))
              (room-remove (length piece) (length rest) m room2))
            (omega (arith, ap length rested, ap length cut))
            (shows (length piece) (length rest) m v (omega (arith, ap length cut)) room2
              ∙ behind_it
              ∙ sym rested)
            rested all.1 h size at (omega arith)))

  -- If all that is buffered in a valid stream, fewer than 2 ^ 31 bytes and addressable up to its
  -- end, is chunks, each with the size of its bytes in its line, then a line of size 0 and what
  -- stands behind that line, two line ends among it and the line's own, then with fuel above the
  -- number of chunks and one the transfer of a chunked body returns: it has written all of these
  -- bytes in order, counted them and removed them, it has read nothing more, and the stream is
  -- valid. What stands behind the body is written too.
  pub transfer_chunk-Copied :
      (fuel p : ℕ) (cs : List Chunk) (m : Mem) (t : Out) (l behind : Bytes)
      → IsValid m
      → HasRoom (length (pending m)) m
      → length (pending m) < 2 ^ 31
      → pending m ≡ on_wire cs (l ++ end_line behind)
      → AreChunks cs
      → IsLine l
      → hex_str_to l ≡ some 0
      → find (l ++ end_line behind) line_ends ≡ some p
      → length cs + 1 < fuel
      → Copied From To S 0 m t (transfer_chunk From To fuel m t)
  unfolding transfer_chunk
  transfer_chunk-Copied fuel p cs m t l behind v room small e all h size at enough =
      let mg = merge m v in
      let m1 = (merge_some m).1 in
      let size_of = ap length (sym mg.1) in
      Copied-merged From To S m m1 t _ mg.1 mg.2 (
        chunk_loop-Copied fuel 0 p cs m1 t l behind mg.0
          (subst (λ k. HasRoom k m1) size_of (room-merge _ m room)) (omega (arith, size_of))
          (mg.3 (room-addressable _ m room) ∙ sym mg.1) (mg.1 ∙ e) all h size at enough)
