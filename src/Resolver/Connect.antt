-- ===== src/Resolver/Connect.antt =====
-- `make_socket` of src/http/socket_wrap.cpp: the name is resolved, and an address that cannot be
-- connected to is forgotten. The resolution and the connection are parameters.
use hcpp.Common.{Option, none, some, Bytes}
use hcpp.Resolver.{HostEdp, SlowDns, remove}

module _ {Edps Sock : Type 0} where
  -- A resolution that throws is `none`; a connection that fails gives no socket.
  unfoldable pub make_socket :
      (Edps → Option Sock)
      → HostEdp
      → Option Edps
      → SlowDns Edps
      → Option (Option Sock) × SlowDns Edps
  make_socket async_connect h host_list s = elim host_list [
    | none ↦ (none, s)
    | some el ↦ elim (async_connect el) [
      | none ↦ (some none, remove h s)
      | some sock ↦ (some (some sock), s)
    ]
  ]

  -- `socket_mem_factory::create`: the memory of the socket, if there is one.
  unfoldable pub create :
      {Mem : Type 0}
      → (Sock → Bytes → Mem)
      → (Edps → Option Sock)
      → HostEdp
      → Option Edps
      → SlowDns Edps
      → Option (Option Mem) × SlowDns Edps
  create socket_memory async_connect h host_list s =
      let (made, s1) = make_socket async_connect h host_list s in
      (
        elim made [
          | none ↦ none
          | some o ↦ elim o [ none ↦ some none | some sock ↦ some (some (socket_memory sock h.0)) ]
        ],
        s1,
      )
