-- ===== src/Lib.antt =====
-- hcpp: an HTTP proxy with its own resolver over DNS over HTTPS.
--
-- A connection to a peer is a `memory` (src/hmemory.h). Its implementation `socket_memory`
-- (src/http/socket_wrap.cpp) keeps what it has read in blocks, which its callers look at and remove.
-- The proxy copies message bodies from one memory to another (`transfer_mem`). The resolver writes a
-- DNS query into an HTTP request and parses the reply (src/dns/dnshttps.cc).
--
--   Common        lists, texts and numbers that the parts share
--   Buffer        `socket_memory`: the blocks, both indices, the flags. Buffer/Chain has its
--                 invariant and the queue of pending bytes, Buffer/Stream and Buffer/Reads its
--                 operations against that queue
--   Memory        the class `memory` as an interface, with what its callers rely on (`IsStream`);
--                 Memory/Connection fills it with `Buffer` over a socket, Memory/Tls with
--                 `ssl_sock_mem` of src/https/ssl_socket_wrap.cpp, Memory/Worker with
--                 `service_worker` of src/http/http_svc_keeper.cpp; Memory/Shown is about what
--                 `get_some` shows, and Memory/Tls/Ended puts `ssl_sock_mem` under the proxy's loop
--   Transfer      `transfer_mem`, for any two memories; Transfer/Until `transfer_mem_until`
--   Dns           src/dns/dnshttps.cc: Dns/Name `host2qname`, `qname2host`, `valid_name`, `lcs`;
--                 Dns/Base64 `b64url_encode`; Dns/Query `make_query`; Dns/Reply `parse_rfc8484`;
--                 Dns/Exchange `get` over a memory, with its loop in Dns/Exchange/Fetch;
--                 Dns/Name/Total on when `host2qname` returns, Dns/Reply/Total on `parse_rfc8484`
--   Resolver      `slow_dns_imp` of src/dns.cpp: the cache and the table of running resolutions;
--                 Resolver/Flights its coroutines as a step relation, with Resolver/Single and
--                 Resolver/Waiters on what every reachable state has, and Resolver/Cache;
--                 Resolver/Mappings the host mappings, the providers and the filter, with
--                 `config_to` of src/config.cpp for the resolver, Resolver/Mappings/Unused on what
--                 becomes of them, Resolver/Providers the resolution over providers,
--                 Resolver/Connect `make_socket` of src/http/socket_wrap.cpp
--   Kmp           `untrust::KMP` of src/untrust/kmp.h; Kmp/Places and Kmp/Search on the one
--                 pattern in use
--   Http          Http/Headers: `parser_header`, `to_lower` and `msg_body_size` of
--                 src/http/httpmsg.cpp, with Http/Headers/Closed on when the parser returns, and how
--                 the headers of src/http/httpclient.cpp choose the end of a body.
--                 Http/Request the request line of src/http/httpclient.cpp,
--                 Http/Parsers the parsers of requests and responses over a memory, Http/Chunks
--                 `hex_str_to` and `transfer_chunk`, in Http/Chunks/Copied a body in the buffer
--   Tunnel        src/http/tunnel.cpp: the rounds of both directions, which run in any order;
--                 Tunnel/Server has the server's memory
--   Server        `http_handler` of src/httpserver.cpp and `hack_sk`: Server/Round the loop
--                 `http_do` over a client's memory and a keeper of services, Server/Named
--                 and Server/Asked which services it asks for, Server/Filters the interceptors,
--                 Server/Unanswered what it makes of a service that sends nothing,
--                 Server/Mitm what src/https/mitm_svc.cpp
--                 puts in the place of the client, the keeper and the tunnel, with
--                 Server/Mitm/Handshake the connection to the server,
--                 Server/Mitm/Handshake/Names the names that it collects, Server/Mitm/Subjects
--                 the identities of `wait_c` and Server/Mitm/Subjects/Genuine whom they name
--   Config        `config_to` of src/config.cpp for the proxy's handler, in Config/Stars its
--                 wildcards; Config/Authority the one of the server that intercepts TLS, and
--                 Config/Authority/Again on its second run; `get_port`, `replace_path`
--   Service       `svc_cache` and `http_svc_keeper` of src/http/http_svc_keeper.cpp: Service/Turns
--                 the coroutines that wait for a connection, Service/Queues and Service/Fair who
--                 gets it, Service/Line the queues as lines
--   Certificate   src/certificate/cert.cpp, with OpenSSL as a parameter and Certificate/Laws what is
--                 relied on; Certificate/Issue the certificates of the authority and of an
--                 intercepted server, Certificate/Issued what they say
--   Program       the constructor and the destructor of `config`, with Program/Saved on what is
--                 saved; Program/Start the `main` of main.cpp, Program/Accept the loops of
--                 src/httpserver.cpp that take clients
--   Tests         runs at concrete inputs
--
-- A coroutine that waits for the network is a function of what the network delivers. The socket
-- (asio) is the record `Socket`: its operations, and that a read which succeeds delivers the next
-- bytes of the peer's stream and one fails only at its end. `char` is a byte. The host is
-- little-endian.
--
-- A coroutine that shares state with others is cut into its locked sections, each a function, and the
-- steps of the relation take them in any order. The endpoints that a resolution gives are a parameter,
-- and a channel is a number.
--
-- Loops that need not end have fuel: the transfers, `http_do` and `get` as an argument, `KMP` twice
-- the size of its text, `qname2host` eleven times the size of the message, `host2qname` and the loop
-- over the records a bound from the size of their input. `none` or `unfinished` stands for a loop
-- that has not returned.
--
-- A regular expression of the source is written out as the texts that it takes; one that the
-- configuration gives is the test that it makes. A map is a list of entries, and the headers are sent
-- on in the order of the list.
--
-- OpenSSL, the JSON library, the file system and the regular expressions are parameters too.
--
-- Not modelled: the threads and signals of main.cpp, the certificate store of the operating system
-- (src/os), and the program of src/dns/doh.cpp, which only call libraries.
pub mod Common
pub mod Kmp
pub mod Buffer
pub mod Memory
pub mod Transfer
pub mod Dns
pub mod Resolver
pub mod Http
pub mod Tunnel
pub mod Server
pub mod Config
pub mod Certificate
pub mod Service
pub mod Program
pub mod Tests
