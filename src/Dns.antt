-- ===== src/Dns.antt =====
-- DNS over HTTPS, src/dns/dnshttps.cc: the codecs of a query and the parser of a reply.
pub mod Base64
pub mod Name
pub mod Query
pub mod Reply
pub mod Exchange
