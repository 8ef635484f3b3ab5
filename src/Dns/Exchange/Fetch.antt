-- ===== src/Dns/Exchange/Fetch.antt =====
-- The loop of `dnshttps::get` of src/dns/dnshttps.cc that reads the body of a reply.
use hcpp.Common.{
  ℕ, zero, suc, ◌+◌, ◌-◌, ◌*◌, ◌≤◌, ◌<◌, [], ◌++◌, Option, none, some, ◌≡◌, refl, sym, ap, ◌∙◌,
  arith, Bytes, length, ltb, Bool-cases, inl, inr, length-append, append_assoc, append-nil,
  drop-all, true,
}
use hcpp.Memory.{Memory, IsStream}
use hcpp.Transfer.Moved.{after_load, after_load_lem}
use hcpp.Dns.Reply.{parse_rfc8484}
use hcpp.Dns.Exchange.{Got, replied, fetch, body, content_length}

module _ (M : Memory) (S : IsStream M) where
  open M use {Mem, async_load_some, get_some, remove_some}
  open S use {IsValid, pending, coming}

  -- What was read behind `cli` bytes of the body.
  pub record Fetched (cl cli : ℕ) (reply : Bytes) (m : Mem) (r : Option (Bytes × Mem))
      : Type 0 where
    pub rest : Mem
    pub taken : Bytes
    pub returns : r ≡ some (reply ++ taken, rest)
    pub split : coming m ≡ taken ++ coming rest
    pub enough : cl ≤ cli + length taken

  fetch-Fetched :
      (fuel cl cli : ℕ) (reply : Bytes) (m : Mem)
      → IsValid m
      → pending m ≡ []
      → cl ≤ cli + length (coming m)
      → cl - cli < fuel
      → Fetched cl cli reply m (fetch M fuel cl cli reply m)
  unfolding fetch after_load
  fetch-Fetched zero cl cli reply m v p le f = absurd (omega arith)
  fetch-Fetched (suc fuel) cl cli reply m v p le f = elim (Bool-cases (ltb cli cl)) [
    | inr done ↦ rw done (record {
      rest = m;
      taken = [];
      returns = ap (λ t. some (t, m)) (sym (append-nil reply));
      split = refl;
      enough = ground arith;
    })
    | inl more ↦
        let str : Bytes = (async_load_some (1024 * 4) m).0 in
        let l = after_load_lem M M S (1024 * 4) m v (omega arith) p in
        let some_byte : 0 < length str = ground (arith, λ (e : str ≡ []). ap length (l.4 e)) in
        let u = after_load M M S (1024 * 4) m in
        let size = length-append str (coming u) in
        let r =
          fetch-Fetched fuel cl (cli + length str) (reply ++ str) u l.0 l.1
            (omega (arith, ap length l.2)) (ground arith) in
        rw more (record {
          rest = r.rest;
          taken = str ++ r.taken;
          returns = r.returns ∙ ap (λ t. some (t, r.rest)) (append_assoc reply str r.taken);
          split = l.2 ∙ ap (◌++◌ str) r.split ∙ sym (append_assoc str r.taken (coming r.rest));
          enough = omega (arith, r.enough, length-append str r.taken);
        })
  ]

  fetch-stuck :
      (fuel cl cli : ℕ) (reply : Bytes) (m : Mem)
      → IsValid m
      → pending m ≡ []
      → cli + length (coming m) < cl
      → fetch M fuel cl cli reply m ≡ none
  unfolding fetch after_load
  fetch-stuck zero cl cli reply m v p h = refl
  fetch-stuck (suc fuel) cl cli reply m v p h =
      let more : ltb cli cl ≡ true = ground arith in
      let str : Bytes = (async_load_some (1024 * 4) m).0 in
      let l = after_load_lem M M S (1024 * 4) m v (omega arith) p in
      let u = after_load M M S (1024 * 4) m in
      rw more (
        fetch-stuck fuel cl (cli + length str) (reply ++ str) u l.0 l.1
          (omega (arith, ap length l.2, length-append str (coming u))))

  -- All that is buffered is taken.
  buffered :
      (m : Mem)
      → IsValid m
      → let u = (remove_some (length (pending m)) m).1 in
        IsValid u × (pending u ≡ []) × (coming u ≡ coming m)
  buffered m v =
      let rm = S.remove (length (pending m)) m v (omega arith) in
      (rm.0, rm.1 ∙ drop-all (length (pending m)) (pending m) (omega arith), rm.2)

  -- For a memory that is a stream in the sense of `IsStream` and shows all that it has buffered:
  -- if the header of a reply gives a length and at least that many bytes are buffered or still to
  -- come, then with fuel above the length the reading ends, it has taken the buffered bytes and
  -- the next ones of the stream, as many as the length or more, and the outcome is that of the
  -- parser on the header and these bytes.
  pub body-replies :
      (fuel : ℕ) (name : Bytes) (qtype : ℕ) (sv1 : Bytes) (m : Mem) (cl : ℕ)
      → content_length sv1 ≡ some cl
      → IsValid m
      → get_some m ≡ pending m
      → cl ≤ length (pending m ++ coming m)
      → cl < fuel
      → (taken : Bytes) × (rest : Mem) × (coming m ≡ taken ++ coming rest)
        × (cl ≤ length (pending m ++ taken))
        × (body M fuel name qtype sv1 m
            ≡ elim (parse_rfc8484 name qtype ((sv1 ++ pending m) ++ taken) (length sv1) cl)
                as (λ x. Option (Got M)) [ none ↦ none | some p ↦ some (replied p rest) ])
  unfolding body
  body-replies fuel name qtype sv1 m cl e v shown le f =
      let got = buffered m v in
      let fe =
        fetch-Fetched fuel cl (length (pending m)) (sv1 ++ pending m)
          (remove_some (length (pending m)) m).1 got.0 got.1
          (omega (arith, ap length got.2, length-append (pending m) (coming m))) (omega arith) in
      (
        fe.taken,
        fe.rest,
        sym got.2 ∙ fe.split,
        omega (arith, fe.enough, length-append (pending m) fe.taken),
        rw (body, e, shown, fe.returns) refl,
      )

  -- If the header of a reply gives a length above the number of bytes that are buffered and to
  -- come, together, of a stream that shows all that it has buffered, then the reading of the body
  -- never returns, whatever the fuel.
  pub body-never_returns :
      (fuel : ℕ) (name : Bytes) (qtype : ℕ) (sv1 : Bytes) (m : Mem) (cl : ℕ)
      → content_length sv1 ≡ some cl
      → IsValid m
      → get_some m ≡ pending m
      → length (pending m ++ coming m) < cl
      → body M fuel name qtype sv1 m ≡ none
  unfolding body
  body-never_returns fuel name qtype sv1 m cl e v shown less =
      let got = buffered m v in
      rw
        (
          body,
          e,
          shown,
          fetch-stuck fuel cl (length (pending m)) (sv1 ++ pending m)
              (remove_some (length (pending m)) m).1 got.0 got.1
              (omega (arith, ap length got.2, length-append (pending m) (coming m))),
        )
        refl
