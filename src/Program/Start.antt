-- ===== src/Program/Start.antt =====
-- `main` of main.cpp, up to the point where its threads run the coroutines: what it builds from the
-- configuration, and in which order.
use hcpp.Common.{ℕ, Bool, true, false, List, [], ◌∷◌, Option, none, some, Bytes, codes}
use hcpp.Certificate.{Openssl, SubjectIdentify}
use hcpp.Certificate.Issue.{Draws}
use hcpp.Config.{get_port, config_to}
use hcpp.Config.Authority.{Files, Ended, thrown, ended, ca_config_to}
use hcpp.Resolver.Mappings.{Texts, Mappings, resolver_config_to}
use hcpp.Server.{HttpHandler, add_request_handler}
use hcpp.Program.{Config, Json, load_config}

abbrev pub config_default_path : Bytes
config_default_path = codes "./hcpp-cfg.json"

-- More than one argument leaves the default.
unfoldable pub path_of : List Bytes → Bytes
path_of [] = config_default_path
path_of (p ∷ []) = p
path_of (p ∷ q ∷ ps) = config_default_path

abbrev pub server_stop : Bytes
server_stop =
    codes
      "HTTP/1.1 200 OK\r\nContent-Type: text/html; charset=utf-8\r\nContent-Length: 12\r\n\r\nserver stop!"

abbrev pub no_handlers : HttpHandler
no_handlers = record { base_handlers = []; direct_filter = []; regx_filter = [] }

-- What the acceptor and the interception of TLS start from.
pub record Running (T : Texts) : Type 0 where
  pub dns : Mappings T
  pub handler : HttpHandler
  pub ca : Option SubjectIdentify
  pub port : ℕ

-- `failed` is an exception, which is logged, and `refused` the result -1.
pub data Launch (T : Texts) (Disk : Type 0) : Type 0 where
  failed : Launch T Disk
  refused : Disk → Launch T Disk
  running : Running T → Disk → Launch T Disk

module _ (T : Texts) {F : Files} (json : Json F) (regex : Bytes → Option (Bytes → Bool))
    (o : Openssl) where
  -- The handler has the services of the configuration, and the path that stops the program;
  -- `none` is an exception.
  unfoldable pub handler_of : Config → Option HttpHandler
  handler_of c = elim (config_to regex c.cs.proxy_service no_handlers) [
    | none ↦ none
    | some hh ↦ some (add_request_handler (codes "/stop") (λ path. server_stop) hh)
  ]

  unfoldable pub launch_with : Config → Mappings T → HttpHandler → Ended F.Disk → Launch T F.Disk
  launch_with c dns hh thrown = failed
  launch_with c dns hh (ended false ca f) = refused f
  launch_with c dns hh (ended true ca f) =
      running (record { dns = dns; handler = hh; ca = ca; port = get_port c.cs.port }) f

  unfoldable pub launch : List Bytes → Option Bytes → Draws → Mappings T → F.Disk → Launch T F.Disk
  launch args home d dns f = elim (load_config json (path_of args) f) [
    | none ↦ failed
    | some c ↦
        let (returns, dns1) = resolver_config_to c.cs.proxy_service c.hm c.cs.dns_provider dns in
        elim returns [
          | false ↦ failed
          | true ↦ elim (handler_of c) [
            | none ↦ failed
            | some hh ↦
                launch_with c dns1 hh
                  (ca_config_to F o d home c.cs.ca_pkey_path c.cs.ca_cert_path f)
          ]
        ]
  ]
