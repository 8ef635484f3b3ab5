-- ===== src/Tests/Proxy.antt =====
-- The proxy's loop over a client that sends what is listed, and a keeper that notes what it is asked.
use hcpp.Common.{
  ◌≡◌, refl, arith, none, true, not, [], ◌∷◌, ◌++◌, Bytes, List, codes, length, equal, inl, inr,
  sym, ◌∙◌, ◌<◌, take, drop,
}
use hcpp.Memory.{Memory}
use hcpp.Http.Request.{new_request}
use hcpp.Server.{HttpHandler, find_set, find_entry, first_match}
use hcpp.Server.Named.{IsNamed}
use hcpp.Server.Asked.{IsKept, Holds, http_do-Holds}
use hcpp.Server.Round.{ServiceKeeper, http_do, Loop, next}
use hcpp.Server.Unanswered.{reply-nothing}
use hcpp.Server.Round.{reply, passed}
use hcpp.Tests.Network.{sink}

abbrev handler : HttpHandler
handler = record { base_handlers = []; direct_filter = []; regx_filter = [] }

-- The client's texts are read one by one; what is written to it is kept.
abbrev client : Memory
client = record {
  Mem = Bytes × Bytes;
  async_load_some = λ n m. (take n m.0, (drop n m.0, m.1));
  async_load_until = λ d m. (m.0, m);
  async_write_all = λ s m. (m.0, m.1 ++ s);
  get_some = λ m. m.0;
  remove_some = λ n m. (n, (drop n m.0, m.1));
  merge_some = λ m. (0, m);
  ok = λ m. not (equal m.0 []);
  reset = λ m. m;
  close = λ m. m;
  alive = λ m. true;
}

-- The services that were asked for.
abbrev notes : ServiceKeeper sink
notes = record {
  Keeper = List (Bytes × Bytes);
  wait = λ host port is k. ([], (host, port) ∷ k);
  keep = λ w k. k;
}

-- Every service in the notes has a host.
abbrev HaveHosts : List (Bytes × Bytes) → Type 0
HaveHosts [] = Unit {0}
HaveHosts (x ∷ xs) = (0 < length x.0) × HaveHosts xs

no_set : (j : Bytes) → find_set j handler ≡ none
unfolding find_set find_entry first_match
no_set j = refl

notes-IsKept : IsKept client sink notes handler HaveHosts
notes-IsKept = record {
  waits = λ host port is k n h. (has_host host port n, h);
  keeps = λ w k h. h;
}
  where
    has_host : (host port : Bytes) → IsNamed handler host port → 0 < length host
    has_host host port (inl s) = s.some_byte
    has_host host port (inr (j, i, e, h)) =
        let clash = sym (no_set j) ∙ e in absurd (ground (arith, clash))

abbrev two_requests : Loop client sink notes handler
two_requests = record {
  client = (codes "GET http://a.bc:81/ HTTP/1.1\r\n\r\nCONNECT a.bc:443 HTTP/1.1\r\n\r\n", []);
  target = record { host = []; svc = []; is = none };
  keeper = [];
}

http_do-Holds_example :
    Holds client sink notes handler HaveHosts
      (http_do client sink notes handler new_request 4 9 two_requests)
http_do-Holds_example =
    http_do-Holds client sink notes handler HaveHosts notes-IsKept new_request 4 9 two_requests
      (inl refl) tt

-- A service that sends nothing, behind a client that has sent its request.
reply-nothing_example :
    reply client sink notes handler 3 two_requests (passed ([], []) [])
    ≡ next (record two_requests { client = ([], []) })
reply-nothing_example =
    reply-nothing client sink notes handler 3 two_requests ([], []) [] [] refl refl refl
