-- ===== src/Tunnel/Relay.antt =====
-- Both directions of the tunnel of src/http/tunnel.cpp, with what it relies on in its two ends.
use hcpp.Common.{
  ℕ, ◌+◌, ◌<◌, ◌++◌, ◌≡◌, refl, sym, ap, ap₂, ◌∙◌, arith, Bytes, length, length-append,
  append_assoc,
}
use hcpp.Memory.{Memory}
use hcpp.Tunnel.{SocketTunnel, chunk, read, write, Run, begin, reads, writes}

module _ (M : Memory) where
  open M use {Mem, async_load_some, async_write_all, remove_some}

  -- A memory as one end of a tunnel: what its peer still sends, what was sent to the peer, and
  -- whether every write was. `Quiet` means that nothing is left in its buffer.
  pub record IsPeer : Type 1 where
    pub Quiet : Mem → Type 0
    pub Written : Mem → Type 0
    pub coming : Mem → Bytes
    pub sent : Mem → Bytes
    pub load :
        (n : ℕ) (m : Mem)
        → Quiet m
        → 0 < n
        → let t = async_load_some n m in
          let u = (remove_some (length t.0) t.1).1 in
          Quiet u × (coming m ≡ t.0 ++ coming u) × (sent u ≡ sent m) × (Written u → Written m)
    pub write :
        (d : Bytes) (m : Mem)
        → Quiet m
        → let u = async_write_all d m in
          Quiet u × (coming u ≡ coming m) × (Written u → Written m × (sent u ≡ sent m ++ d))

-- A piece that moves from what is coming to what was sent.
handed_on :
    {now before : Bytes} (out str left : Bytes)
    → now ≡ out ++ str
    → before ≡ str ++ left
    → now ++ left ≡ out ++ before
handed_on out str left e h =
    ap (λ t. t ++ left) e ∙ append_assoc out str left ∙ ap (λ t. out ++ t) (sym h)

module _ (Client Server : Memory) (P : IsPeer Client) (Q : IsPeer Server) where
  open P use {
    Quiet as QuietC, Written as WrittenC, coming as coming_c, sent as sent_c, load as load_c,
    write as write_c,
  }
  open Q use {
    Quiet as QuietS, Written as WrittenS, coming as coming_s, sent as sent_s, load as load_s,
    write as write_s,
  }

  abbrev pub Relayed : SocketTunnel Client Server → SocketTunnel Client Server → Type 0
  Relayed t u =
      (sent_s u.s ++ coming_c u.c ≡ sent_s t.s ++ coming_c t.c)
      × (sent_c u.c ++ coming_s u.s ≡ sent_c t.c ++ coming_s t.s)
      × (t.r_n + length (sent_c u.c) ≡ u.r_n + length (sent_c t.c))
      × (t.w_n + length (sent_s u.s) ≡ u.w_n + length (sent_s t.s))

  relays :
      {t u : SocketTunnel Client Server}
      → QuietC t.c
      → QuietS t.s
      → Run Client Server t u
      → QuietC u.c × QuietS u.s × (WrittenC u.c → WrittenS u.s → Relayed t u)
  unfolding read write
  relays qc qs begin = (qc, qs, λ _ _. (refl, refl, refl, refl))
  relays qc qs (reads {u = u} run o) =
      let ih = relays qc qs run in
      let str : Bytes = (Server.async_load_some chunk u.s).0 in
      let l = load_s chunk u.s ih.1 (omega arith) in
      let w = write_c str u.c ih.0 in
      let s' = (Server.remove_some (length str) (Server.async_load_some chunk u.s).1).1 in
      (
        w.0,
        l.0,
        λ a b.
            let put = w.2 a in
            let r = ih.2 put.0 (l.3 b) in
            (
              ap₂ ◌++◌ l.2 w.1 ∙ r.0,
              handed_on (sent_c u.c) str (coming_s s') put.1 l.1 ∙ r.1,
              omega (arith, ap length put.1, length-append (sent_c u.c) str, r.2),
              omega (arith, ap length l.2, r.3),
            ),
      )
  relays qc qs (writes {u = u} run o) =
      let ih = relays qc qs run in
      let str : Bytes = (Client.async_load_some chunk u.c).0 in
      let l = load_c chunk u.c ih.0 (omega arith) in
      let w = write_s str u.s ih.1 in
      let c' = (Client.remove_some (length str) (Client.async_load_some chunk u.c).1).1 in
      (
        l.0,
        w.0,
        λ a b.
            let put = w.2 b in
            let r = ih.2 (l.3 a) put.0 in
            (
              handed_on (sent_s u.s) str (coming_c c') put.1 l.1 ∙ r.0,
              ap₂ ◌++◌ l.2 w.1 ∙ r.1,
              omega (arith, ap length l.2, r.2),
              omega (arith, ap length put.1, length-append (sent_s u.s) str, r.3),
            ),
      )

  -- For two ends of a tunnel with nothing left in their buffers, in whatever order its two loops
  -- take their rounds: as long as no write has failed, what was sent to the server and what still
  -- comes from the client are together what they were at the start, in order, and the other way
  -- round, and both counters have grown by what was sent.
  pub Run-Relayed :
      (t u : SocketTunnel Client Server)
      → QuietC t.c
      → QuietS t.s
      → Run Client Server t u
      → WrittenC u.c
      → WrittenS u.s
      → Relayed t u
  Run-Relayed t u qc qs run a b = (relays qc qs run).2 a b
