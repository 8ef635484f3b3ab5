-- ===== src/Memory/Connection.antt =====
-- `socket_memory` of src/http/socket_wrap.cpp over its socket, as the interface `Memory`. The socket
-- is the library's: its operations are a parameter, with what the library documents of them.
use hcpp.Common.{
  ℕ, ◌^◌, ◌≤◌, ◌<◌, Bool, true, false, [], ◌++◌, ◌≡◌, refl, sym, ap, ◌∙◌, inl, inr, arith, Bytes,
  length, append-nil, Bool-cases,
}
use hcpp.Buffer
use hcpp.Buffer.{SocketMemory, ReadResult, UntilResult}
use hcpp.Buffer.Chain
use hcpp.Buffer.Stream.{async_load_some-pending}
use hcpp.Buffer.Reads.{remove_some-pending, merge_some-pending}
use hcpp.Memory.{Memory, IsStream}

-- A connected socket. `arriving` is what its peer still sends before it ends its stream, and
-- `delivered` what was written to the peer.
pub record Socket : Type 1 where
  pub Sock : Type 0
  pub async_read_some : ℕ → Sock → ReadResult × Sock
  pub async_read_until : Bytes → Sock → UntilResult × Sock
  pub async_write : Bytes → Sock → Bool × Sock
  pub arriving : Sock → Bytes
  pub delivered : Sock → Bytes
  -- A read into a buffer of n bytes gives between one and n bytes, the next ones of the stream.
  pub reads :
      (n : ℕ) (s : Sock)
      → 0 < n
      → let t = async_read_some n s in
        t.0.failed ≡ false
        → (0 < length t.0.arrived)
          × (length t.0.arrived ≤ n)
          × (arriving s ≡ t.0.arrived ++ arriving t.1)
  -- A read fails at the end of the stream only, and stays there.
  pub fails :
      (n : ℕ) (s : Sock)
      → 0 < n
      → let t = async_read_some n s in t.0.failed ≡ true → (arriving s ≡ []) × (arriving t.1 ≡ [])
  -- Reading and writing do not disturb one another, and a write that does not fail writes it all.
  pub read_keeps : (n : ℕ) (s : Sock) → delivered (async_read_some n s).1 ≡ delivered s
  pub write_keeps : (d : Bytes) (s : Sock) → arriving (async_write d s).1 ≡ arriving s
  pub writes :
      (d : Bytes) (s : Sock)
      → let t = async_write d s in t.0 ≡ false → delivered t.1 ≡ delivered s ++ d

load_failed :
    (r : ReadResult) (m : SocketMemory)
    → r.failed ≡ true
    → Buffer.async_load_some r m ≡ ([], record m { read_ok = false })
unfolding Buffer.async_load_some
load_failed r m e = rw e

load_done :
    (r : ReadResult) (m : SocketMemory)
    → r.failed ≡ false
    → Buffer.async_load_some r m
      ≡ Buffer.async_load_some (record { failed = false; arrived = r.arrived }) m
load_done r m e = ap (λ f. Buffer.async_load_some (record { failed = f; arrived = r.arrived }) m) e

module _ (net : Socket) where
  open net use {Sock, async_read_some, async_read_until, async_write, arriving, reads, fails}

  pub record Connection : Type 0 where
    pub sock : Sock
    pub buffer : SocketMemory

  abbrev pub connection : Memory
  connection = record {
    Mem = Connection;
    async_load_some = λ n c.
        let (r, s) = async_read_some n c.sock in
        let (str, m) = Buffer.async_load_some r c.buffer in (str, record { sock = s; buffer = m });
    async_load_until = λ d c.
        let (r, s) = async_read_until d c.sock in
        let (str, m) = Buffer.async_load_until r c.buffer in (str, record { sock = s; buffer = m });
    async_write_all = λ d c.
        let (e, s) = async_write d c.sock in
        record { sock = s; buffer = Buffer.async_write_all e c.buffer };
    get_some = λ c. Buffer.get_some c.buffer;
    remove_some = λ n c. let (k, m) = Buffer.remove_some n c.buffer in (k, record c { buffer = m });
    merge_some = λ c. let (k, m) = Buffer.merge_some c.buffer in (k, record c { buffer = m });
    ok = λ c. Buffer.ok c.buffer;
    reset = λ c. record c { buffer = Buffer.reset c.buffer };
    close = λ c. record c { buffer = Buffer.close c.buffer };
    alive = λ c. Buffer.alive c.buffer;
  }

  pub load_lem :
      (n : ℕ) (c : Connection)
      → Chain.IsValid c.buffer
      → 0 < n
      → let t = connection.async_load_some n c in
        Chain.IsValid t.1.buffer
        × (length t.0 ≤ n)
        × (Chain.pending t.1.buffer ≡ Chain.pending c.buffer ++ t.0)
        × (arriving c.sock ≡ t.0 ++ arriving t.1.sock)
        × (t.0 ≡ [] → arriving c.sock ≡ [])
  load_lem n c v p = elim (Bool-cases (async_read_some n c.sock).0.failed) [
    | inl bad ↦
        let f = fails n c.sock p bad in
        rw (load_failed (async_read_some n c.sock).0 c.buffer bad) (
          record { chain = v.chain; starts = v.starts },
          omega arith,
          sym (append-nil (Chain.pending c.buffer)),
          f.0 ∙ sym f.1,
          λ _. f.0,
        )
    | inr good ↦
        let d = (async_read_some n c.sock).0.arrived in
        let r = reads n c.sock p good in
        let a = async_load_some-pending c.buffer d v r.0 in
        rw (load_done (async_read_some n c.sock).0 c.buffer good, a.0)
          (a.3, r.1, a.1, r.2, λ e. absurd (omega (arith, r.0, ap length e)))
  ]

  -- The buffer over a socket is a stream in the sense of the interface, while its read index fits
  -- an `int`.
  unfoldable pub stream : IsStream connection
  stream = record {
    IsValid = λ c. Chain.IsValid c.buffer;
    IsAddressable = λ c. c.buffer.read_index < 2 ^ 31;
    pending = λ c. Chain.pending c.buffer;
    coming = λ c. arriving c.sock;
    load = load_lem;
    remove = λ n c v h. let r = remove_some-pending c.buffer n v h in (r.3, r.0, refl);
    merge = λ c v.
        let r = merge_some-pending c.buffer v in (r.3, r.0, refl, λ h. r.1 (omega (arith, r.2)));
  }
