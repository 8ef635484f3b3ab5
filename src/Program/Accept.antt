-- ===== src/Program/Accept.antt =====
-- The loops of src/httpserver.cpp that take clients: `httpserver::wait_http` and the listener of
-- `mimt_https_server::wait_c`. What the acceptor and the channel give is a list of events; an event
-- that throws (`none`) is logged, and the loop goes on.
use hcpp.Common.{List, [], ◌∷◌, Option, none, some}
use hcpp.Server.Mitm.{ChannelClient}

-- The sockets for which `http_do` is started, each with a keeper of its own.
unfoldable pub wait_http : {Sock : Type 0} → List (Option Sock) → List Sock
wait_http [] = []
wait_http (none ∷ es) = wait_http es
wait_http (some s ∷ es) = s ∷ wait_http es

-- A client that comes with no socket is left out.
unfoldable pub https_listener :
    {Sock : Type 0} → List (Option (ChannelClient × Option Sock)) → List (ChannelClient × Sock)
https_listener [] = []
https_listener (none ∷ es) = https_listener es
https_listener (some (cc, none) ∷ es) = https_listener es
https_listener (some (cc, some s) ∷ es) = (cc, s) ∷ https_listener es

-- Without an authority `wait_c` throws.
unfoldable pub wait_c :
    {Sock Ca : Type 0}
    → Option Ca
    → List (Option (ChannelClient × Option Sock))
    → Option (List (ChannelClient × Sock))
wait_c none es = none
wait_c (some ca) es = some (https_listener es)
