-- ===== src/Server/Mitm/Handshake.antt =====
-- `mitm_svc::make_memory` and `mitm_svc::add_SAN_collector` of src/https/mitm_svc.cpp, with `set_sni`,
-- `close_sni` and `set_verify_callback` of src/https/ssl_socket_wrap.cpp. The network and the
-- handshake are parameters: a handshake gives the calls of the callback in their order, and fails
-- when one of them does.
pub mod Names
use hcpp.Common.{
  ℕ, Bool, true, false, not, List, [], ◌∷◌, ◌++◌, Option, none, some, Bytes, equal, if◌then◌else◌,
}
use hcpp.Http.Chunks.{c_string}

-- A name of the subject's alternative names: whether it is one of DNS, and its bytes.
pub record GeneralName : Type 0 where
  pub is_dns : Bool
  pub bytes : Bytes

-- The certificate of a call; `none` is one without the extension.
pub record VerifyCall : Type 0 where
  pub preverified : Bool
  pub names : Option (List GeneralName)
  pub pubkey : Bytes
  pub depth : ℕ

pub record PartCertInfo : Type 0 where
  pub dns_name : List Bytes
  pub pubkey : Bytes

-- The names are pointers to characters for the list.
unfoldable pub dns_names : List GeneralName → List Bytes
dns_names [] = []
dns_names (n ∷ ns) = let rest = dns_names ns in if n.is_dns then c_string n.bytes ∷ rest else rest

unfoldable pub collect : VerifyCall → PartCertInfo → Bool × PartCertInfo
collect v pci =
    let seen : PartCertInfo = elim v.names [
      | none ↦ pci
      | some ns ↦ record { dns_name = pci.dns_name ++ dns_names ns; pubkey = v.pubkey }
    ] in
    if v.preverified then (true, seen) else (false, pci)

-- The fields of `mitm_svc` that a handshake uses; `collects` says that `verify_fun_` is set.
pub record MitmSvc : Type 0 where
  pub sni_host : Bytes
  pub enable_sni : Bool
  pub collects : Bool

unfoldable pub new_svc : MitmSvc
new_svc = record { sni_host = []; enable_sni = true; collects = false }

-- The side of a TLS stream.
pub data StreamType : Type 0 where
  client server : StreamType

pub record Network : Type 1 where
  pub Mem : Type 0
  pub Peer : Type 0
  -- `make_socket`, which throws (`none`) or makes no socket.
  pub make_socket : Bytes → Bytes → Bool → Option (Option Peer)
  -- `ssl::host_name_verification`
  pub host_name_verification : Bytes → VerifyCall → Bool
  pub set_host_name : Bytes → Bool
  pub close_servername : Bool
  -- The server name that is sent, if one is, and the calls.
  pub calls : Peer → Option Bytes → List VerifyCall
  pub connected : Peer → Option Bytes → Option Mem

module _ (net : Network) where
  open net use {
    Mem, Peer, make_socket, host_name_verification, set_host_name, close_servername, calls,
    connected,
  }

  -- The callback that is set for the handshake.
  unfoldable pub verify : Bytes → Bool → VerifyCall → PartCertInfo → Bool × PartCertInfo
  verify host collects v pci =
      if host_name_verification host v
      then (if collects then collect v pci else (true, pci))
      else (false, pci)

  unfoldable pub verify_all : Bytes → Bool → List VerifyCall → PartCertInfo → Option PartCertInfo
  verify_all host collects [] pci = some pci
  verify_all host collects (v ∷ vs) pci =
      let later = verify_all host collects vs (verify host collects v pci).1 in
      if (verify host collects v pci).0 then later else none

  -- The server name that is set behind the one before, or an exception.
  abbrev pub set_sni : StreamType → Bytes → Option Bytes → Option (Option Bytes)
  set_sni server sni sent = some sent
  set_sni client sni sent =
      if set_host_name (c_string sni) then some (some (c_string sni)) else none

  abbrev pub close_sni : Option Bytes → Option (Option Bytes)
  close_sni sent = if close_servername then some sent else none

  -- `init_client` makes a stream that sends no name.
  unfoldable pub server_name : MitmSvc → Option (Option Bytes)
  server_name k =
      if not k.enable_sni
      then close_sni none
      else if equal k.sni_host []
      then some none
      else set_sni client k.sni_host none

  unfoldable pub handshake :
      MitmSvc → Bytes → Peer → Option Bytes → PartCertInfo → Option (Mem × PartCertInfo)
  handshake k host p sni pci = elim (verify_all host k.collects (calls p sni) pci) [
    | none ↦ none
    | some seen ↦ elim (connected p sni) [ none ↦ none | some m ↦ some (m, seen) ]
  ]

  unfoldable pub make_memory :
      MitmSvc → Bytes → Bytes → Bool → PartCertInfo → Option (Mem × PartCertInfo)
  make_memory k svc_host svc_service use_doh pci = elim (make_socket svc_host svc_service use_doh) [
    | none ↦ none
    | some sock ↦ elim sock [
      | none ↦ none
      | some p ↦ elim (server_name k) [ none ↦ none | some sni ↦ handshake k svc_host p sni pci ]
    ]
  ]
