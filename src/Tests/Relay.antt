-- ===== src/Tests/Relay.antt =====
-- A tunnel whose client sends 1 and 2, and whose server sends 9.
use hcpp.Common.{false, true, [], ◌∷◌, refl}
use hcpp.Buffer
use hcpp.Buffer.{fresh}
use hcpp.Memory.Connection.{connection}
use hcpp.Tunnel.{SocketTunnel, read, write, ok, begin, reads, writes}
use hcpp.Tunnel.Relay.{Relayed, Run-Relayed}
use hcpp.Tunnel.Server.{simple_tunnel_mem, server_peer, client_peer}
use hcpp.Tests.Network.{one_by_one}

abbrev opened : SocketTunnel (connection one_by_one) (simple_tunnel_mem one_by_one)
opened = record {
  c = record { sock = (1 ∷ 2 ∷ [], []); buffer = fresh };
  s = record { sock = (9 ∷ [], []); read_ok = true; write_ok = true; closed = false };
  r_n = 0;
  w_n = 0;
}

abbrev relayed : SocketTunnel (connection one_by_one) (simple_tunnel_mem one_by_one)
relayed = write _ _ (read _ _ (write _ _ opened))

Run-Relayed_example :
    Relayed
      (connection one_by_one)
      (simple_tunnel_mem one_by_one)
      (client_peer one_by_one)
      (server_peer one_by_one)
      opened
      relayed
unfolding read write ok Buffer.ok Buffer.async_load_some Buffer.async_write_all Buffer.remove_some
    client_peer server_peer Buffer.flat
Run-Relayed_example =
    Run-Relayed (connection one_by_one) (simple_tunnel_mem one_by_one) (client_peer one_by_one)
      (server_peer one_by_one) opened relayed (record { chain = refl; starts = tt }, refl) tt
      (writes (reads (writes begin refl) refl) refl) refl refl
