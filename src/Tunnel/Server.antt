-- ===== src/Tunnel/Server.antt =====
-- `simple_tunnel_mem` of src/http/tunnel.cpp, the server's end of a tunnel, and both kinds of memory
-- as ends of a tunnel.
use hcpp.Common.{
  ℕ, ◌*◌, ◌<◌, Bool, true, false, ◌&&◌, not, [], ◌++◌, ◌≡◌, refl, sym, ap, ◌∙◌, inl, inr, arith,
  Bytes, length, drop-all, if◌then◌else◌, ltb, Bool-cases,
}
use hcpp.Buffer
use hcpp.Buffer.Chain
use hcpp.Buffer.Reads.{remove_some-pending}
use hcpp.Memory.{Memory}
use hcpp.Memory.Connection.{Socket, Connection, connection, load_lem}
use hcpp.Tunnel.Relay.{IsPeer}

module _ (net : Socket) where
  open net use {
    Sock, async_read_some, async_write, arriving, delivered, reads, fails, read_keeps, write_keeps,
    writes,
  }

  pub record SimpleTunnelMem : Type 0 where
    pub sock : Sock
    pub read_ok : Bool
    pub write_ok : Bool
    pub closed : Bool

  abbrev pub buff_size : ℕ
  buff_size = 1024 * 4 * 4

  -- It keeps nothing that it has read: the other operations are those of `memory`. A failed read has
  -- no bytes. `async_load_until` throws in the source, and a tunnel does not call it.
  abbrev pub simple_tunnel_mem : Memory
  simple_tunnel_mem = record {
    Mem = SimpleTunnelMem;
    async_load_some = λ max_n m.
        let mn = if ltb max_n buff_size then max_n else buff_size in
        let (r, s) = async_read_some mn m.sock in
        if r.failed
        then ([], record m { sock = s; read_ok = false })
        else (r.arrived, record m { sock = s });
    async_load_until = λ d m. ([], m);
    async_write_all = λ d m.
        let (e, s) = async_write d m.sock in
        if e then record m { sock = s; write_ok = false } else record m { sock = s };
    get_some = λ m. [];
    remove_some = λ n m. (0, m);
    merge_some = λ m. (0, m);
    ok = λ m. m.read_ok && m.write_ok;
    reset = λ m. m;
    close = λ m. record m { closed = true };
    alive = λ m. not m.closed;
  }

  pub server_load :
      (n : ℕ) (m : SimpleTunnelMem)
      → 0 < n
      → let t = simple_tunnel_mem.async_load_some n m in
        (arriving m.sock ≡ t.0 ++ arriving t.1.sock)
        × (delivered t.1.sock ≡ delivered m.sock)
        × (t.1.write_ok ≡ m.write_ok)
  server_load n m p =
      let mn = if ltb n buff_size then n else buff_size in
      let room : 0 < mn = ground arith in
      elim (Bool-cases (async_read_some mn m.sock).0.failed) [
        | inl bad ↦
            let f = fails mn m.sock room bad in rw bad (f.0 ∙ sym f.1, read_keeps mn m.sock, refl)
        | inr good ↦ rw good ((reads mn m.sock room good).2, read_keeps mn m.sock, refl)
      ]

  pub server_write :
      (d : Bytes) (m : SimpleTunnelMem)
      → let u = simple_tunnel_mem.async_write_all d m in
        (arriving u.sock ≡ arriving m.sock)
        × (u.write_ok ≡ true → (m.write_ok ≡ true) × (delivered u.sock ≡ delivered m.sock ++ d))
  server_write d m = elim (Bool-cases (async_write d m.sock).0) [
    | inl bad ↦ rw bad (write_keeps d m.sock, λ e. absurd (ground arith))
    | inr good ↦ rw good (write_keeps d m.sock, λ e. (e, writes d m.sock good))
  ]

  -- Both kinds of memory are ends of a tunnel.
  unfoldable pub server_peer : IsPeer simple_tunnel_mem
  server_peer = record {
    Quiet = λ m. Unit {0};
    Written = λ m. m.write_ok ≡ true;
    coming = λ m. arriving m.sock;
    sent = λ m. delivered m.sock;
    load = λ n m q p. let l = server_load n m p in (tt, l.0, l.1, λ e. sym l.2 ∙ e);
    write = λ d m q. let w = server_write d m in (tt, w.0, w.1);
  }

  pub client_kept :
      (n : ℕ) (c : Connection net)
      → let t = (connection net).async_load_some n c in
        let u = ((connection net).remove_some (length t.0) t.1).1 in
        u.buffer.write_ok ≡ c.buffer.write_ok
  unfolding Buffer.async_load_some Buffer.remove_some
  client_kept n c = elim (Bool-cases (async_read_some n c.sock).0.failed) [
    | inl bad ↦ rw bad refl
    | inr good ↦ rw good refl
  ]

  pub client_write :
      (d : Bytes) (c : Connection net)
      → let u = (connection net).async_write_all d c in
        (u.buffer.buffs ≡ c.buffer.buffs)
        × (u.buffer.write_ok ≡ true
            → (c.buffer.write_ok ≡ true) × (delivered u.sock ≡ delivered c.sock ++ d))
  unfolding Buffer.async_write_all
  client_write d c = elim (Bool-cases (async_write d c.sock).0) [
    | inl bad ↦ rw bad (refl, λ e. absurd (ground arith))
    | inr good ↦ rw good (refl, λ e. (e, writes d c.sock good))
  ]

  abbrev pub QuietBuffer : Buffer.SocketMemory → Type 0
  QuietBuffer m = Chain.IsValid m × (Chain.pending m ≡ [])

  pub client_quiet :
      (d : Bytes) (c : Connection net)
      → QuietBuffer c.buffer
      → QuietBuffer ((connection net).async_write_all d c).buffer
  unfolding Buffer.async_write_all
  client_quiet d c q = elim (Bool-cases (async_write d c.sock).0) [
    | inl bad ↦ rw bad (record { chain = q.0.chain; starts = q.0.starts }, q.1)
    | inr good ↦ rw good q
  ]

  pub client_load :
      (n : ℕ) (c : Connection net)
      → QuietBuffer c.buffer
      → 0 < n
      → let t = (connection net).async_load_some n c in
        let u = ((connection net).remove_some (length t.0) t.1).1 in
        QuietBuffer u.buffer
        × (arriving c.sock ≡ t.0 ++ arriving u.sock)
        × (delivered u.sock ≡ delivered c.sock)
        × (u.buffer.write_ok ≡ true → c.buffer.write_ok ≡ true)
  client_load n c q p =
      let l = load_lem net n c q.0 p in
      let t = (connection net).async_load_some n c in
      let held : Chain.pending t.1.buffer ≡ t.0 = l.2 ∙ ap (λ x. x ++ t.0) q.1 in
      let r = remove_some-pending t.1.buffer (length t.0) l.0 (omega (arith, ap length held)) in
      (
        (
          r.3,
          r.0 ∙ drop-all (length t.0) (Chain.pending t.1.buffer) (omega (arith, ap length held)),
        ),
        l.3,
        read_keeps n c.sock,
        λ e. sym (client_kept n c) ∙ e,
      )

  unfoldable pub client_peer : IsPeer (connection net)
  client_peer = record {
    Quiet = λ c. QuietBuffer c.buffer;
    Written = λ c. c.buffer.write_ok ≡ true;
    coming = λ c. arriving c.sock;
    sent = λ c. delivered c.sock;
    load = client_load;
    write = λ d c q. let w = client_write d c in (client_quiet d c q, write_keeps d c.sock, w.1);
  }
