-- ===== src/Server/Mitm.antt =====
-- The parts of src/https/mitm_svc.cpp that stand between the proxy's loop and TLS: what the
-- interception puts in the place of the client, of the keeper and of the tunnel. The handshakes and
-- the certificates are OpenSSL's.
pub mod Handshake
pub mod Subjects
use hcpp.Common.{ℕ, Option, Bytes, codes}
use hcpp.Memory.{Memory}
use hcpp.Http.Request.{Request, Method, new_request}
use hcpp.Server.{InterceptSet}
use hcpp.Server.Round.{ServiceKeeper}

-- `https_client::make_request`, which leaves two fields of the request as they happen to be.
unfoldable pub https_request : Method → ℕ → Bytes → Bytes → Request
https_request method url_param_start host service = record new_request {
  method = method;
  url_param_start = url_param_start;
  host = host;
  port = service;
}

-- `mitm_svc` after `make_memory` has made its connection: whoever is asked for, it is that one.
unfoldable pub mitm_svc : (S : Memory) → ServiceKeeper S
mitm_svc S = record { Keeper = S.Mem; wait = λ host service is m. (m, m); keep = λ w m. w }

-- `channel_client` without its socket.
pub record ChannelClient : Type 0 where
  pub host : Bytes
  pub service : Bytes
  pub is : Option InterceptSet

-- `channel_tunnel::make_tunnel`: the client is told that the tunnel stands, and handed over.
unfoldable pub make_channel_tunnel :
    (C : Memory) → Option InterceptSet → Bytes → Bytes → C.Mem → ChannelClient × C.Mem
make_channel_tunnel C is host service m = (
  record { host = host; service = service; is = is },
  C.async_write_all (codes "HTTP/1.1 200 OK\r\n\r\n") m,
)
