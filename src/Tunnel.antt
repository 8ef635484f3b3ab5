-- ===== src/Tunnel.antt =====
-- `socket_tunnel` of src/http/tunnel.cpp: two coroutines that copy from the server to the client
-- and back while both memories are in order. Between their steps either may run.
pub mod Relay
pub mod Server
use hcpp.Common.{ℕ, ◌+◌, ◌*◌, Bool, true, ◌&&◌, Bytes, length, ◌≡◌, Option, none, some, codes}
use hcpp.Memory.{Memory}

abbrev pub chunk : ℕ
chunk = 1024 * 4

module _ (Client Server : Memory) where
  open Client use {
    Mem as C, async_load_some as load_c, async_write_all as write_c, remove_some as remove_c,
    ok as ok_c,
  }
  open Server use {
    Mem as S, async_load_some as load_s, async_write_all as write_s, remove_some as remove_s,
    ok as ok_s,
  }

  pub record SocketTunnel : Type 0 where
    pub c : C
    pub s : S
    pub r_n : ℕ
    pub w_n : ℕ

  unfoldable pub read : SocketTunnel → SocketTunnel
  read t =
      let (str, s1) = load_s chunk t.s in
      record {
        c = write_c str t.c;
        s = (remove_s (length str) s1).1;
        r_n = t.r_n + length str;
        w_n = t.w_n;
      }

  unfoldable pub write : SocketTunnel → SocketTunnel
  write t =
      let (str, c1) = load_c chunk t.c in
      record {
        c = (remove_c (length str) c1).1;
        s = write_s str t.s;
        r_n = t.r_n;
        w_n = t.w_n + length str;
      }

  unfoldable pub ok : SocketTunnel → Bool
  ok t = ok_c t.c && ok_s t.s

  -- The loops `bind_read` and `bind_write`, in any order.
  pub data Run (t : SocketTunnel) : SocketTunnel → Type 0 where
    begin : Run t t
    reads : {u : SocketTunnel} → Run t u → ok u ≡ true → Run t (read u)
    writes : {u : SocketTunnel} → Run t u → ok u ≡ true → Run t (write u)

  -- The client is told once there is a connection to the server, and hears nothing if there is none.
  unfoldable pub make_tunnel : Option S → C → Option SocketTunnel
  make_tunnel none m = none
  make_tunnel (some server) m =
      some
        (record { c = write_c (codes "HTTP/1.1 200 OK\r\n\r\n") m; s = server; r_n = 0; w_n = 0 })
