-- ===== src/Memory/Tls.antt =====
-- `ssl_sock_mem` of src/https/ssl_socket_wrap.cpp as the interface `Memory`. Its blocks and indices
-- are those of `socket_memory`, and what it does with them is written there in the same words; only
-- its writes are different. The TLS stream is the library's, given as a socket with its shutdown.
pub mod Ended
use hcpp.Common.{
  ℕ, ◌^◌, ◌≤◌, ◌<◌, Bool, true, false, [], ◌∷◌, ◌++◌, Bytes, length, equal, if◌then◌else◌,
}
use hcpp.Buffer
use hcpp.Buffer.{SocketMemory}
use hcpp.Buffer.Chain
use hcpp.Memory.{Memory, IsStream}
use hcpp.Memory.Connection.{Socket, Connection, load_lem, stream}

module _ (net : Socket) (shutdown : net.Sock → net.Sock) where
  open net use {Sock, async_read_some, async_read_until, async_write, arriving}

  -- The stream is shut down when nothing is written, whether the write failed or not.
  unfoldable pub ssl_write_all : Bytes → Connection net → Connection net
  ssl_write_all d c =
      let (e, s) = async_write d c.sock in
      let m = if e then record c.buffer { write_ok = false } else c.buffer in
      if equal d []
      then record { sock = shutdown s; buffer = record m { write_ok = false } }
      else record { sock = s; buffer = m }

  -- The stream takes the given number of bytes; the error of the write is not looked at.
  unfoldable pub ssl_write_some : ℕ → Sock → Bytes → Connection net → ℕ × Connection net
  ssl_write_some n s d c =
      if equal d []
      then (0, record { sock = shutdown s; buffer = record c.buffer { write_ok = false } })
      else (n, record { sock = s; buffer = c.buffer })

  abbrev pub ssl_sock_mem : Memory
  ssl_sock_mem = record {
    Mem = Connection net;
    async_load_some = λ n c.
        let (r, s) = async_read_some n c.sock in
        let (str, m) = Buffer.async_load_some r c.buffer in (str, record { sock = s; buffer = m });
    async_load_until = λ d c.
        let (r, s) = async_read_until d c.sock in
        let (str, m) = Buffer.async_load_until r c.buffer in (str, record { sock = s; buffer = m });
    async_write_all = ssl_write_all;
    get_some = λ c. Buffer.get_some c.buffer;
    remove_some = λ n c. let (k, m) = Buffer.remove_some n c.buffer in (k, record c { buffer = m });
    merge_some = λ c. let (k, m) = Buffer.merge_some c.buffer in (k, record c { buffer = m });
    ok = λ c. Buffer.ok c.buffer;
    reset = λ c. record c { buffer = Buffer.reset c.buffer };
    close = λ c. record c { buffer = Buffer.close c.buffer };
    alive = λ c. Buffer.alive c.buffer;
  }

  -- It is a stream as the plain connection is.
  unfoldable pub ssl_stream : IsStream ssl_sock_mem
  unfolding stream
  ssl_stream = record {
    IsValid = (stream net).IsValid;
    IsAddressable = (stream net).IsAddressable;
    pending = (stream net).pending;
    coming = (stream net).coming;
    load = (stream net).load;
    remove = (stream net).remove;
    merge = (stream net).merge;
  }
